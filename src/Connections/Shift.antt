-- ===== src/Connections/Shift.antt =====
-- The array after a connection was taken out, in source/network_server.c.
use hash_map_storage_service.Prelude.{
  ℕ, suc, ◌≡◌, refl, ◌∙◌, ap, none, some, [], ◌∷◌, ◌++◌, length, get_elem?, set,
}
use hash_map_storage_service.Prelude.Outcome.{ret, fault}
use hash_map_storage_service.Connections.{Pollfd, Slots, shift}

pub get_elem?-append :
    (pre post : Slots) (c : Pollfd) → get_elem? (pre ++ (c ∷ post)) (length pre) ≡ some c
get_elem?-append [] post c = refl
get_elem?-append (x ∷ pre) post c = get_elem?-append pre post c

pub set-append :
    (pre post : Slots) (c d : Pollfd) → set (pre ++ (c ∷ post)) (length pre) d ≡ pre ++ (d ∷ post)
set-append [] post c d = refl
set-append (x ∷ pre) post c d = ap (λ zs. x ∷ zs) (set-append pre post c d)

abbrev pub last_of : Pollfd → Slots → Pollfd
last_of x [] = x
last_of x (y ∷ ys) = last_of y ys

pub snoc-append :
    (pre : Slots) (y : Pollfd) (zs : Slots) → (pre ++ (y ∷ [])) ++ zs ≡ pre ++ (y ∷ zs)
snoc-append [] y zs = refl
snoc-append (x ∷ pre) y zs = ap (λ t. x ∷ t) (snoc-append pre y zs)

pub length-snoc : (pre : Slots) (y : Pollfd) → length (pre ++ (y ∷ [])) ≡ suc (length pre)
length-snoc [] y = refl
length-snoc (x ∷ pre) y = ap suc (length-snoc pre y)

shift-next :
    (n : ℕ) (pre zs : Slots) (x y : Pollfd)
    → shift (suc n) (length pre) (pre ++ (x ∷ (y ∷ zs)))
      ≡ shift n (length (pre ++ (y ∷ []))) ((pre ++ (y ∷ [])) ++ (y ∷ zs))
unfolding shift
shift-next n pre zs x y =
    rw (next pre)
      (rw (set-append pre (y ∷ zs) x y, length-snoc pre y, snoc-append pre y (y ∷ zs)) refl)
  where
    next : (pre : Slots) → get_elem? (pre ++ (x ∷ (y ∷ zs))) (suc (length pre)) ≡ some y
    next [] = refl
    next (z ∷ pre) = next pre

-- Each of the elements ys moves one place down, and the last one stays behind as a copy.
pub shift-append :
    (pre ys post : Slots) (x : Pollfd)
    → shift (length ys) (length pre) (pre ++ (x ∷ (ys ++ post)))
      ≡ ret (pre ++ (ys ++ (last_of x ys ∷ post)))
shift-append pre [] post x = unfold shift in refl
shift-append pre (y ∷ ys) post x =
    shift-next (length ys) pre (ys ++ post) x y
    ∙ shift-append (pre ++ (y ∷ [])) ys post y
    ∙ ap ret (snoc-append pre y (ys ++ (last_of y ys ∷ post)))

get_elem?-end : (pre : Slots) (x : Pollfd) → get_elem? (pre ++ (x ∷ [])) (suc (length pre)) ≡ none
get_elem?-end [] x = refl
get_elem?-end (z ∷ pre) x = get_elem?-end pre x

-- Moving down what is behind the last element reads behind the array.
pub shift-end :
    (pre ys : Slots) (x : Pollfd) → shift (suc (length ys)) (length pre) (pre ++ (x ∷ ys)) ≡ fault
shift-end pre [] x = unfold shift in rw (get_elem?-end pre x) refl
shift-end pre (y ∷ ys) x =
    shift-next (suc (length ys)) pre ys x y ∙ shift-end (pre ++ (y ∷ [])) ys y
