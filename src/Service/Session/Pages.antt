-- ===== src/Service/Session/Pages.antt =====
-- The page of a query: crates/yspot-indexd/src/session.rs (`normalize_exts`, `ext_matches`, `parent_of`, and the
-- assembly of the rows in `run_search`). Lowercasing and trimming of texts are parameters; the hits are what
-- the index's search gives, an argument, as are its names, paths and folding.
pub mod Laws
use Prim.Native.Nat.{◌-◌, min, max}
use yspot.Prelude.{
  ℕ, zero, suc, ◌+◌, ◌*◌, ◌≤◌, ◌<◌, ◌≡◌, refl, sym, ap, ◌∙◌, Bool, true, false, not, ◌&&◌, ◌||◌,
  List, [], ◌∷◌, ◌++◌, Option, none, some, Bytes, ltb, leb, ◌==◌, length, take, drop, any,
  if◌then◌else◌, arith, length-append, Bool-cases, inl, inr,
}
use yspot.Proto.Messages.{Filters, ResultId, ResultItem}

-- What a search gives of a file.
pub record Hit : Type 0 where
  pub frn : ℕ
  pub score : ℕ
  pub match_ranges : List (ℕ × ℕ)

abbrev pub same_bytes : Bytes → Bytes → Bool
same_bytes [] [] = true
same_bytes [] (y ∷ ys) = false
same_bytes (x ∷ xs) [] = false
same_bytes (x ∷ xs) (y ∷ ys) = x == y && same_bytes xs ys

unfoldable pub ends_with : Bytes → Bytes → Bool
ends_with s tail = leb (length tail) (length s) && same_bytes (drop (length s - length tail) s) tail

unfoldable pub starts_with : Bytes → Bytes → Bool
starts_with s front = same_bytes (take (length front) s) front

unfoldable pub contains : Bytes → Bytes → Bool
unfolding starts_with
contains [] needle = starts_with [] needle
contains (x ∷ s) needle = starts_with (x ∷ s) needle || contains s needle

abbrev strip_dots : Bytes → Bytes
strip_dots [] = []
strip_dots (x ∷ s) = if x == b'.' then strip_dots s else x ∷ s

-- `clamp(1, 512)`
abbrev pub page_size : ℕ → ℕ
page_size max_results = min (max max_results 1) 512

-- How many hits are asked for.
unfoldable pub fetch_size : Bool → ℕ → ℕ
fetch_size by_path most = if by_path then min (max (most * 8) most) 4096 else most

unfoldable pub parent_of : Bytes → Bytes → Bytes
unfolding ends_with
parent_of path name =
    if ltb 0 (length name) && (ltb (length name) (length path) && ends_with path name)
    then take (length path - length name) path
    else path

module _ (trim to_lowercase : Bytes → Bytes) where
  abbrev dotted : Bytes → List Bytes → List Bytes
  dotted [] rest = rest
  dotted (x ∷ s) rest = (b'.' ∷ to_lowercase (x ∷ s)) ∷ rest

  unfoldable pub normalize_exts : List Bytes → List Bytes
  normalize_exts [] = []
  normalize_exts (e ∷ raw) = dotted (strip_dots (trim e)) (normalize_exts raw)

  unfoldable pub ext_matches : Bytes → List Bytes → Bool
  unfolding ends_with
  ext_matches name exts = any (λ e. ends_with (to_lowercase name) e) exts

-- The path filter that a query carries: an empty one is none.
unfoldable pub path_needle : (Bytes → Bytes) → Option Bytes → Option Bytes
path_needle fold none = none
path_needle fold (some []) = none
path_needle fold (some (x ∷ s)) = some (fold (x ∷ s))

module _ (fold : Bytes → Bytes) (name_of path_of : ℕ → Option Bytes) where
  abbrev row : Hit → Bytes → Bytes → ResultItem
  row h name path = record {
    id = record { volume_idx = 0; frn = h.frn };
    path = path;
    name = name;
    score = h.score;
    size = none;
    mtime = none;
    match_ranges = h.match_ranges;
    snippet = none;
  }

  unfoldable pub passes : Option Bytes → Bytes → Bytes → Bool
  unfolding contains parent_of
  passes none path name = true
  passes (some needle) path name = contains (fold (parent_of path name)) needle

  -- The row of a hit whose name and path the index still has, if it passes the path filter.
  abbrev pub row_of : Option Bytes → Hit → Option Bytes → Option Bytes → List ResultItem
  row_of needle h none path = []
  row_of needle h (some name) none = []
  row_of needle h (some name) (some path) =
      if passes needle path name then row h name path ∷ [] else []

  -- The rows of the hits in order, at most `room` of them.
  unfoldable pub assemble : Option Bytes → ℕ → List Hit → List ResultItem
  assemble needle room [] = []
  assemble needle zero (h ∷ hits) = []
  assemble needle (suc room) (h ∷ hits) =
      let here = row_of needle h (name_of h.frn) (path_of h.frn) in
      here ++ assemble needle (suc room - length here) hits
