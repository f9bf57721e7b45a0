-- ===== src/Io/Scanning.antt =====
-- `icCtx::expect` on a text that has what is expected, behind blanks.
use mopa.Base.{
  ℕ, zero, suc, ◌≡◌, refl, ◌∙◌, List, [], ◌∷◌, ◌++◌, true, false, ==_iff, replicate, ok,
}
use mopa.Io.TextIn.{IcCtx, is_blank, skip_blanks, skiptotoken, match_prefix, expect}

skip_blanks-replicate :
    (n : ℕ) (text : List ℕ) → skip_blanks (replicate n b' ' ++ text) ≡ skip_blanks text
unfolding skip_blanks
skip_blanks-replicate zero text = refl
skip_blanks-replicate (suc n) text = skip_blanks-replicate n text

match_prefix-append : (req rest : List ℕ) → match_prefix req (req ++ rest) ≡ (true, rest)
unfolding match_prefix
match_prefix-append [] rest = refl
match_prefix-append (r ∷ req) rest = rw ((==_iff r r).1 refl) (match_prefix-append req rest)

skip_blanks_word :
    (n r : ℕ) (text : List ℕ)
    → is_blank r ≡ false
    → skip_blanks (replicate n b' ' ++ (r ∷ text)) ≡ r ∷ text
unfolding skip_blanks
skip_blanks_word n r text h = skip_blanks-replicate n (r ∷ text) ∙ rw h

-- A word that begins with no blank, behind any number of spaces.
pub expect-append :
    (n r : ℕ) (req rest : List ℕ) (c : IcCtx)
    → is_blank r ≡ false
    → expect (r ∷ req) (record c { parse_pos = replicate n b' ' ++ ((r ∷ req) ++ rest) })
      ≡ ok (true, record c { parse_pos = rest })
unfolding expect skiptotoken
expect-append n r req rest c h =
    rw (skip_blanks_word n r (req ++ rest) h, match_prefix-append (r ∷ req) rest)
