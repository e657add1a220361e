-- ===== src/Sequencer/Waiting.antt =====
-- The requests that wait in the queue of src/request-invoker.cpp, and the links between them.
use src_link.Prelude.{ap, ◌++◌, ◌&&◌, ◌==◌, refl, not, arith, true, [], ◌≡◌, Bool, ◌∷◌, List, ℕ}
use src_link.Sequencer.{remove_one, last_of, unlinked, linked}

-- Neither of the two.
abbrev pub fresh : ℕ → List ℕ → Bool
fresh id [] = true
fresh id (x ∷ xs) = not (x == id) && fresh id xs

abbrev pub distinct : List ℕ → Bool
distinct [] = true
distinct (x ∷ xs) = fresh x xs && distinct xs

-- Each with the next.
abbrev pub pairs_from : ℕ → List ℕ → List (ℕ × ℕ)
pairs_from x [] = []
pairs_from x (y ∷ ys) = (x, y) ∷ pairs_from y ys

abbrev pub pairs : List ℕ → List (ℕ × ℕ)
pairs [] = []
pairs (x ∷ xs) = pairs_from x xs

abbrev pub first_only : List ℕ → List ℕ
first_only [] = []
first_only (x ∷ xs) = x ∷ []

abbrev pub rest_of : List ℕ → List ℕ
rest_of [] = []
rest_of (x ∷ xs) = xs

pub append_assoc : (xs ys zs : List ℕ) → (xs ++ ys) ++ zs ≡ xs ++ (ys ++ zs)
append_assoc [] ys zs = refl
append_assoc (x ∷ xs) ys zs = ap (λ l. x ∷ l) (append_assoc xs ys zs)

pub append_nil : (xs : List ℕ) → xs ++ [] ≡ xs
append_nil [] = refl
append_nil (x ∷ xs) = ap (λ l. x ∷ l) (append_nil xs)

pub fresh-right : (id : ℕ) (xs ys : List ℕ) → fresh id (xs ++ ys) ≡ true → fresh id ys ≡ true
fresh-right id [] ys h = h
fresh-right id (x ∷ xs) ys h = fresh-right id xs ys (ground arith)

pub fresh-left : (id : ℕ) (xs ys : List ℕ) → fresh id (xs ++ ys) ≡ true → fresh id xs ≡ true
fresh-left id [] ys h = refl
fresh-left id (x ∷ xs) ys h = let r = fresh-left id xs ys (ground arith) in ground arith

pub fresh-snoc :
    (id y : ℕ) (xs : List ℕ)
    → fresh id xs ≡ true
    → not (y == id) ≡ true
    → fresh id (xs ++ y ∷ []) ≡ true
fresh-snoc id y [] h k = ground arith
fresh-snoc id y (x ∷ xs) h k = let r = fresh-snoc id y xs (ground arith) k in ground arith

pub distinct-snoc :
    (id : ℕ) (xs : List ℕ)
    → fresh id xs ≡ true
    → distinct xs ≡ true
    → distinct (xs ++ id ∷ []) ≡ true
distinct-snoc id [] h k = refl
distinct-snoc id (x ∷ xs) h k =
    let a = fresh-snoc x id xs (ground arith) (ground arith) in
    let b = distinct-snoc id xs (ground arith) (ground arith) in ground arith

pub pairs_from-snoc :
    (x id : ℕ) (xs : List ℕ)
    → pairs_from x (xs ++ id ∷ []) ≡ pairs_from x xs ++ (last_of x xs, id) ∷ []
pairs_from-snoc x id [] = refl
pairs_from-snoc x id (y ∷ ys) = ap (λ l. (x, y) ∷ l) (pairs_from-snoc y id ys)

pub linked-fresh :
    (id x : ℕ) (xs : List ℕ) → fresh id (x ∷ xs) ≡ true → linked id (pairs_from x xs) ≡ []
unfolding linked
linked-fresh id x [] h = refl
linked-fresh id x (y ∷ ys) h = let r = linked-fresh id y ys (ground arith) in ground arith

pub unlinked-fresh :
    (id x : ℕ) (xs : List ℕ)
    → fresh id (x ∷ xs) ≡ true
    → unlinked id (pairs_from x xs) ≡ pairs_from x xs
unfolding unlinked
unlinked-fresh id x [] h = refl
unlinked-fresh id x (y ∷ ys) h = let r = unlinked-fresh id y ys (ground arith) in ground arith

pub same_id : (x : ℕ) → (x == x) ≡ true
same_id x = ground arith

pub linked-head :
    (x : ℕ) (xs : List ℕ) → fresh x xs ≡ true → linked x (pairs_from x xs) ≡ first_only xs
unfolding linked
linked-head x [] h = refl
linked-head x (y ∷ ys) h = rw (same_id x, linked-fresh x y ys h) refl

pub unlinked-head :
    (x : ℕ) (xs : List ℕ) → fresh x xs ≡ true → unlinked x (pairs_from x xs) ≡ pairs xs
unfolding unlinked
unlinked-head x [] h = refl
unlinked-head x (y ∷ ys) h = rw (same_id x, unlinked-fresh x y ys h) refl

pub remove_one-head : (x : ℕ) (xs : List ℕ) → remove_one x (x ∷ xs) ≡ xs
unfolding remove_one
remove_one-head x xs = rw (same_id x) refl
