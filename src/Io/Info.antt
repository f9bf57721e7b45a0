-- ===== src/Io/Info.antt =====
-- inc/io.h: the description of a variable or block (`iox_info`), and the format hints.
use Prim.Native.Char.{code}
use Prim.Native.String.{String}
use mopa.Base.{ℕ, List, [], ◌∷◌, Option, some}

pub record Info : Type 0 where
  pub file : List ℕ
  pub line : ℕ
  pub name : List ℕ
  pub hint : ℕ

abbrev pub format_hint_mask : ℕ
format_hint_mask = 0xf

abbrev pub format_hint_hex : ℕ
format_hint_hex = 0x1

abbrev pub format_hint_bin : ℕ
format_hint_bin = 0x2

-- The bytes of an ASCII text.
abbrev pub codes : String → List ℕ
codes String.[] = []
codes (String.◌∷◌ c s) = code c ∷ codes s

-- `DVB_INFO_HINT` and `DVB_INFO`. The file and the line reach only the messages of exceptions.
abbrev pub dvb_info_hint : String → ℕ → Option Info
dvb_info_hint name hint = some (record { file = []; line = 0; name = codes name; hint = hint })

abbrev pub dvb_info : String → Option Info
dvb_info name = dvb_info_hint name 0
