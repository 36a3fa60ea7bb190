-- ===== src/Service/Session/Pages/Laws.antt =====
-- The rows of a page, and the parent that its path filter looks at.
use Prim.Native.Nat.{◌-◌}
use yspot.Prelude.{
  ℕ, zero, suc, ◌≤◌, ◌<◌, ◌≡◌, refl, ap, true, List, [], ◌∷◌, ◌++◌, Option, none, some, Bytes, ltb,
  leb, length, take, drop, arith, length-append,
}
use yspot.Service.Session.Pages.{Hit, same_bytes, ends_with, parent_of, row_of, assemble}

same_bytes_refl : (s : Bytes) → same_bytes s s ≡ true
same_bytes_refl [] = refl
same_bytes_refl (x ∷ s) = let ih = same_bytes_refl s in ground arith

drop_front : (xs ys : Bytes) → drop (length xs) (xs ++ ys) ≡ ys
drop_front [] ys = refl
drop_front (x ∷ xs) ys = drop_front xs ys

take_front : (xs ys : Bytes) → take (length xs) (xs ++ ys) ≡ xs
take_front [] ys = refl
take_front (x ∷ xs) ys = ap (◌∷◌ x) (take_front xs ys)

-- The parent of a path that is a nonempty front and a nonempty name is the front.
pub parent_of-append :
    (front name : Bytes)
    → 0 < length front
    → 0 < length name
    → parent_of (front ++ name) name ≡ front
unfolding parent_of ends_with
parent_of-append front name f n =
    let l = length-append front name in
    let d : length (front ++ name) - length name ≡ length front = omega (arith, l) in
    let a : ltb 0 (length name) ≡ true = ground arith in
    let b : ltb (length name) (length (front ++ name)) ≡ true = ground (arith, l) in
    let c : leb (length name) (length (front ++ name)) ≡ true = ground (arith, l) in
    rw (a, b, c, d, drop_front front name, same_bytes_refl name, take_front front name) refl

row_of-le :
    (fold : Bytes → Bytes) (name_of path_of : ℕ → Option Bytes) (needle : Option Bytes) (h : Hit)
    (name path : Option Bytes)
    → length (row_of fold name_of path_of needle h name path) ≤ 1
row_of-le fold name_of path_of needle h none path = omega arith
row_of-le fold name_of path_of needle h (some name) none = omega arith
row_of-le fold name_of path_of needle h (some name) (some path) = ground arith

-- A page has at most as many rows as there is room for, whatever the hits.
pub assemble-le :
    (fold : Bytes → Bytes) (name_of path_of : ℕ → Option Bytes) (needle : Option Bytes) (room : ℕ)
    (hits : List Hit)
    → length (assemble fold name_of path_of needle room hits) ≤ room
unfolding assemble
assemble-le fold name_of path_of needle room [] = omega arith
assemble-le fold name_of path_of needle zero (h ∷ hits) = omega arith
assemble-le fold name_of path_of needle (suc room) (h ∷ hits) =
    let here = row_of fold name_of path_of needle h (name_of h.frn) (path_of h.frn) in
    let one = row_of-le fold name_of path_of needle h (name_of h.frn) (path_of h.frn) in
    let rest = assemble fold name_of path_of needle (suc room - length here) hits in
    let ih = assemble-le fold name_of path_of needle (suc room - length here) hits in
    rw (length-append here rest) (omega (arith, one, ih))
