-- ===== src/Psi/Extractor.antt =====
-- src/merger.cpp `psi_extractor_impl`: sections collected from the packets of a transport stream.
-- The sections handed to the callback are the result of a call. `content` is the `data_len` bytes of
-- `data`, in the loop those from `sec_p` on. `memcpy` of a part of `data` to its own front is a
-- parameter, since the two regions may overlap. The pid is read by the source for its debug output
-- only, which is left out.
pub mod Safety
pub mod Rounds
pub mod Resuming
pub mod Whole
pub mod Overread
use mopa.Base.{
  ℕ, zero, suc, ◌+◌, ◌-◌, ◌≤◌, ◌≡◌, ◌*◌, ◌/◌, ◌%◌, ◌^◌, List, [], ◌∷◌, ◌++◌, Bool, true, false, not,
  ltb, leb, ◌==◌, ◌&&◌, ◌||◌, if◌then◌else◌, length, take, drop, get_or, bit_and, bit_or, ◌<<<◌,
  ◌>>>◌,
}
use mopa.Base.{Outcome, ok, fault, out_of_fuel, bind, M}

pub data State : Type 0 where
  wait_start wait_more : State

pub record Extractor : Type 0 where
  pub max_section_size : ℕ
  pub callback_set : Bool
  pub dvb_section_length : ℕ
  pub state : State
  pub content : List ℕ
  pub cc : ℕ

abbrev pub ts_packet_len : ℕ
ts_packet_len = 188

-- The allocation of `data`.
abbrev pub capacity : Extractor → ℕ
capacity c = c.max_section_size + 184

unfoldable pub create : ℕ → Extractor
create max_section_size = record {
  max_section_size = if ltb (2 ^ 12) max_section_size then 2 ^ 12 else max_section_size;
  callback_set = false;
  dvb_section_length = 0;
  state = wait_start;
  content = [];
  cc = 0;
}

unfoldable pub on_section_ready : Bool → Extractor → Extractor
on_section_ready set c = record c { callback_set = set }

abbrev pub Sections : Type 0
Sections = List (List ℕ)

-- The first byte of a section that ends the packet's sections.
abbrev pub is_stuffing : List ℕ → Bool
is_stuffing [] = false
is_stuffing (b ∷ bs) = b == 0xff

-- `(sec_p[1]<<8 | sec_p[2]) & ((1<<12) - 1)`, and 3
unfoldable pub section_size : List ℕ → ℕ
section_size sec = bit_and (bit_or (get_or sec 1 0 <<< 8) (get_or sec 2 0)) (2 ^ 12 - 1) + 3

abbrev pub emitting : List ℕ → Outcome (Sections × Extractor) → Outcome (Sections × Extractor)
emitting section r = bind r (λ (sections, c). ok (section ∷ sections, c))

-- The loop at `more_sections`, on the bytes from `sec_p` on.
unfoldable pub more_sections : ℕ → List ℕ → M Extractor Sections
more_sections zero sec c = out_of_fuel
more_sections (suc fuel) sec c =
    let size = section_size sec in
    let sized : Extractor = record c { dvb_section_length = size; content = sec } in
    let rest = drop size sec in
    let stop : Extractor → Outcome (Sections × Extractor) =
      λ d. ok ([], record d { state = wait_start }) in
    let wait : Extractor → Outcome (Sections × Extractor) =
      λ d. ok ([], record d { state = wait_more }) in
    let again : Outcome (Sections × Extractor) =
      emitting (take size sec) (more_sections fuel rest sized) in
    let last : Outcome (Sections × Extractor) =
      emitting (take size sec) (stop (record sized { content = rest })) in
    if is_stuffing sec
    then stop (record c { content = sec })
    else if ltb (length sec) 3
    then wait (record c { content = sec })
    else if ltb c.max_section_size size
    then stop sized
    else if leb size (length sec)
    then (if not c.callback_set then stop sized else if ltb 0 (length rest) then again else last)
    else wait sized

-- `memcpy(data+data_len,p,reminder)` and the loop, up to the copy of the bytes that are left. Every
-- section takes three bytes at least.
unfoldable pub gather : List ℕ → M Extractor Sections
gather payload c =
    let sec = c.content ++ payload in
    let run : Outcome (Sections × Extractor) = more_sections (suc (length sec)) sec c in
    if ltb (capacity c) (length sec) then fault else run

abbrev pub reset : Extractor → Outcome (Sections × Extractor)
reset c = ok ([], record c { state = wait_start })

abbrev pub pusi_of : List ℕ → Bool
pusi_of p = bit_and (get_or p 1 0 >>> 6) 1 == 1

abbrev pub afc_of : List ℕ → ℕ
afc_of p = bit_and (get_or p 3 0 >>> 4) 3

abbrev pub cc_of : List ℕ → ℕ
cc_of p = bit_and (get_or p 3 0) 0xf

abbrev pub next_cc : ℕ → ℕ
next_cc counter = bit_and (counter + 1) 0xf

-- What `memcpy(data,data+offset,n)` leaves in the `n` bytes at the front of `data`, for the `n` bytes
-- that it is to copy. The C standard says what they are when the two regions do not overlap.
pub record Memcpy : Type 0 where
  pub front : ℕ → List ℕ → List ℕ
  pub length-front : (offset : ℕ) (bytes : List ℕ) → length (front offset bytes) ≡ length bytes
  pub front_apart :
      (offset : ℕ) (bytes : List ℕ) → length bytes ≤ offset → front offset bytes ≡ bytes

module _ ⦃m : Memcpy⦄ where
  -- `memcpy(data,sec_p,data_len)`, where the state becomes `wait_more`; `all` bytes are in `data`.
  unfoldable pub to_front : ℕ → Extractor → Extractor
  to_front all c = elim c.state [
    | wait_start ↦ c
    | wait_more ↦ record c { content = m.front (all - length c.content) c.content }
  ]

  -- The bytes of the packet, behind those kept from before.
  unfoldable pub collect : List ℕ → M Extractor Sections
  collect payload c =
      bind (gather payload c)
        λ (sections, d). ok (sections, to_front (length c.content + length payload) d)

  -- The pointer field. Its first byte is read also where the packet has no byte left.
  unfoldable pub skip_pointer : Bool → List ℕ → M Extractor Sections
  skip_pointer false payload c = collect payload c
  skip_pointer true [] c = elim c.state [ wait_start ↦ fault | wait_more ↦ reset c ]
  skip_pointer true (p ∷ payload) c = elim c.state [
    | wait_start ↦
        if ltb (length (p ∷ payload)) (1 + p)
        then reset c
        else collect (drop (1 + p) (p ∷ payload)) c
    | wait_more ↦ collect payload c
  ]

  -- The adaptation field.
  unfoldable pub skip_adaptation : Bool → Bool → List ℕ → M Extractor Sections
  unfolding skip_pointer
  skip_adaptation false pusi payload c = skip_pointer pusi payload c
  skip_adaptation true pusi [] c = fault
  skip_adaptation true pusi (p ∷ payload) c =
      if ltb (length (p ∷ payload)) (1 + p)
      then reset c
      else skip_pointer pusi (drop (1 + p) (p ∷ payload)) c

  -- `p` points to the 188 bytes of a packet.
  unfoldable pub ts_packet : List ℕ → M Extractor Sections
  unfolding skip_adaptation
  ts_packet p c =
      let pusi = pusi_of p in
      let has_adaptation = afc_of p == 2 || afc_of p == 3 in
      let go : Extractor → Outcome (Sections × Extractor) =
        λ d. skip_adaptation has_adaptation pusi (drop 4 p) d in
      elim c.state [
        | wait_start ↦ if pusi then go (record c { content = []; cc = cc_of p }) else ok ([], c)
        | wait_more ↦
            if next_cc c.cc == cc_of p then go (record c { cc = next_cc c.cc }) else reset c
      ]
