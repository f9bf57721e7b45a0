-- ===== src/Io/Ownership.antt =====
-- src/io.cpp: the constructors, the assignment and the destructor of `iox`.
-- `C` is what a context has; the text or the buffer that it points to belongs to the caller, and
-- copies point to the same one. `ix`, `ox` and the other views hold the pointer of their `iox` and have
-- no destructor.
pub mod Owners
pub mod Views
pub mod Values
pub mod Assigning
pub mod Steps
pub mod Programs
use mopa.Base.{ℕ, suc, ◌==◌, if◌then◌else◌, Option, none, some, Outcome, ok, fault, bind, M, ◌>>=◌}

-- The contexts by their addresses, and the objects that are alive by the address in their `ctx`. An
-- address or an object is used once.
pub record Heap (C : Type 0) : Type 0 where
  pub cell : ℕ → Option C
  pub next : ℕ
  pub object : ℕ → Option ℕ
  pub objects : ℕ

unfoldable pub set_at : {A : Type 0} → (ℕ → Option A) → ℕ → Option A → ℕ → Option A
set_at f k v x = if x == k then v else f x

module _ {C : Type 0} where
  -- `new`
  unfoldable pub new_ctx : C → M (Heap C) ℕ
  new_ctx x h = ok (h.next, record h { cell = set_at h.cell h.next (some x); next = suc h.next })

  -- `delete`
  unfoldable pub delete_ctx : ℕ → M (Heap C) (Unit {0})
  delete_ctx a h = elim (h.cell a) [
    | none ↦ fault
    | some x ↦ ok (tt, record h { cell = set_at h.cell a none })
  ]

  -- `ctx`, of an object that is alive
  unfoldable pub ctx_of : ℕ → M (Heap C) ℕ
  ctx_of o h = elim (h.object o) [ none ↦ fault | some a ↦ ok (a, h) ]

  unfoldable pub deref : ℕ → M (Heap C) C
  deref a h = elim (h.cell a) [ none ↦ fault | some x ↦ ok (x, h) ]

  unfoldable pub set_ctx : ℕ → ℕ → M (Heap C) (Unit {0})
  set_ctx o a h = ok (tt, record h { object = set_at h.object o (some a) })

  -- `iox(ioCtx*)` on a context that is new; with the blank context it is `iox()`.
  unfoldable pub construct : C → M (Heap C) ℕ
  unfolding new_ctx
  construct x h = bind (new_ctx x h) λ (a, g).
      ok (
        g.objects,
        record g { object = set_at g.object g.objects (some a); objects = suc g.objects },
      )

  -- The call of the destructor that is not the end of the object.
  unfoldable pub release : ℕ → M (Heap C) (Unit {0})
  release this = ctx_of this >>= λ a. delete_ctx a

  -- `*this=rhs`. The source has a branch for each of the four types of context; they differ in the type.
  unfoldable pub assign : ℕ → ℕ → M (Heap C) (Unit {0})
  assign this rhs h =
      let copied : M (Heap C) (Unit {0}) = release this >>= λ _.
      ctx_of rhs >>= λ b. deref b >>= λ x. new_ctx x >>= λ a. set_ctx this a in
      if this == rhs then ok (tt, h) else copied h

  -- `iox(iox const &from)`
  unfoldable pub copy : C → ℕ → M (Heap C) ℕ
  copy blank from = construct blank >>= λ this. assign this from >>= λ _ h. ok (this, h)

  -- `~iox()` at the end of the object
  unfoldable pub destroy : ℕ → M (Heap C) (Unit {0})
  destroy this = release this >>= λ _ h. ok (tt, record h { object = set_at h.object this none })

  -- A call that changes the context of an object.
  unfoldable pub change : (C → C) → ℕ → M (Heap C) (Unit {0})
  change f this = ctx_of this >>= λ a.
      deref a >>= λ x h. ok (tt, record h { cell = set_at h.cell a (some (f x)) })
