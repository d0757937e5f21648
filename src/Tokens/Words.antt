-- ===== src/Tokens/Words.antt =====
-- `strtok` on words between delimiters, and `strcpy` to an array.
use hash_map_storage_service.Prelude.{
  ℕ, ◌≡◌, refl, ◌∙◌, ap, true, false, none, some, [], ◌∷◌, ◌++◌, length, ◌<◌, arith,
}
use hash_map_storage_service.Prelude.Outcome.{ret}
use hash_map_storage_service.Prelude.Text.{Text}
use hash_map_storage_service.Tokens.{is_in, skip, cut, token_of, strtok, strcpy}

-- No byte of the text is a delimiter.
abbrev pub Plain : Text → Text → Type 0
Plain delims [] = Unit
Plain delims (c ∷ s) = (is_in c delims ≡ false) × Plain delims s

-- A word has at least one byte, and no delimiter.
abbrev pub IsWord : Text → Text → Type 0
IsWord delims [] = ⊥
IsWord delims (c ∷ s) = Plain delims (c ∷ s)

-- Each byte of the text is a delimiter.
abbrev pub AllDelims : Text → Text → Type 0
AllDelims delims [] = Unit
AllDelims delims (c ∷ s) = (is_in c delims ≡ true) × AllDelims delims s

cut-stop : (delims s : Text) (c : ℕ) → is_in c delims ≡ true → cut delims (c ∷ s) ≡ ([], s)
unfolding cut
cut-stop delims s c e = ground (arith, e)

cut-more :
    (delims s : Text) (c : ℕ)
    → is_in c delims ≡ false
    → cut delims (c ∷ s) ≡ (c ∷ (cut delims s).0, (cut delims s).1)
unfolding cut
cut-more delims s c e = ground (arith, e)

cut-Plain :
    (delims w : Text) (c : ℕ) (s : Text)
    → Plain delims w
    → is_in c delims ≡ true
    → cut delims (w ++ (c ∷ s)) ≡ (w, s)
cut-Plain delims [] c s p e = cut-stop delims s c e
cut-Plain delims (b ∷ w) c s (h, p) e =
    cut-more delims (w ++ (c ∷ s)) b h ∙ ap (λ r. (b ∷ r.0, r.1)) (cut-Plain delims w c s p e)

cut-all : (delims w : Text) → Plain delims w → cut delims w ≡ (w, [])
unfolding cut
cut-all delims [] p = refl
cut-all delims (b ∷ w) (h, p) =
    cut-more delims w b h ∙ ap (λ r. (b ∷ r.0, r.1)) (cut-all delims w p)

skip-stop : (delims s : Text) (c : ℕ) → is_in c delims ≡ false → skip delims (c ∷ s) ≡ c ∷ s
unfolding skip
skip-stop delims s c e = ground (arith, e)

strtok-at :
    (delims s : Text) (c : ℕ)
    → is_in c delims ≡ false
    → strtok delims (c ∷ s) ≡ (some (cut delims (c ∷ s)).0, (cut delims (c ∷ s)).1)
unfolding strtok token_of
strtok-at delims s c h = ap (token_of delims) (skip-stop delims s c h)

-- A word in front of a delimiter is the token, and what is behind the delimiter is left.
pub strtok-word :
    (delims w : Text) (c : ℕ) (s : Text)
    → IsWord delims w
    → is_in c delims ≡ true
    → strtok delims (w ++ (c ∷ s)) ≡ (some w, s)
strtok-word delims [] c s p e = absurd p
strtok-word delims (b ∷ w) c s p e =
    strtok-at delims (w ++ (c ∷ s)) b p.0
    ∙ ap (λ r. (some r.0, r.1)) (cut-Plain delims (b ∷ w) c s p e)

-- A word alone is the token, and nothing is left.
pub strtok-last : (delims w : Text) → IsWord delims w → strtok delims w ≡ (some w, [])
strtok-last delims [] p = absurd p
strtok-last delims (b ∷ w) p =
    strtok-at delims w b p.0 ∙ ap (λ r. (some r.0, r.1)) (cut-all delims (b ∷ w) p)

skip-more : (delims s : Text) (c : ℕ) → is_in c delims ≡ true → skip delims (c ∷ s) ≡ skip delims s
unfolding skip
skip-more delims s c e = ground (arith, e)

skip-all : (delims s : Text) → AllDelims delims s → skip delims s ≡ []
unfolding skip
skip-all delims [] a = refl
skip-all delims (c ∷ s) (h, a) = skip-more delims s c h ∙ skip-all delims s a

-- There is no token where all bytes are delimiters.
pub strtok-none : (delims s : Text) → AllDelims delims s → strtok delims s ≡ (none, [])
unfolding strtok token_of
strtok-none delims s a = ap (token_of delims) (skip-all delims s a)

pub strcpy-room : (n : ℕ) (s : Text) → length s < n → strcpy n (some s) ≡ ret s
unfolding strcpy
strcpy-room n s h = ground arith
