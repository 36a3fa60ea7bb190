-- ===== src/Index/Table/Fenced/Append.antt =====
-- Appending a record to the folded arena, and binding an entry to it, keep the arena well formed.
use yspot.Prelude.{
  ℕ, zero, suc, ◌+◌, ◌≤◌, ◌<◌, ◌≡◌, ◌≢◌, refl, sym, ◌∙◌, ◌⊎◌, inl, inr, [], ◌∷◌, ◌++◌, Bytes,
  length, arith, some, get_elem?, Bool-cases, false, ltb, get_elem?-append_left,
  get_elem?-append_right, length-append, lt_of_get_elem?,
}
use yspot.Prelude.Slices.{slice, slice-append_left, slice-append_at}
use yspot.Text.{has_control_byte}
use yspot.Index.Types.{Entry, is_dead}
use yspot.Index.Columns.{folded_delim}
use yspot.Index.Arena.{Arenas, Interned, fenced}
use yspot.Index.Arena.Laws.{Appended}
use yspot.Index.Table.{Table, bind}
use yspot.Index.Table.Valid.{IsValid, IsVacant}
use yspot.Index.Table.Bind.{LiveAt-bind, LiveAt-bind_self, LiveAt-bind_ne}
use yspot.Index.Table.Extend.{with_arenas, Placed}
use yspot.Index.Table.Fenced.{Owned, HasFences, IsFenced}

-- A byte of the fenced arena is one of the arena, or its opening fence.
get_elem?-fenced :
    (bs zs : Bytes) (h b : ℕ)
    → h < length (fenced bs)
    → get_elem? (fenced bs ++ zs) h ≡ some b
    → (get_elem? bs h ≡ some b) ⊎ (b ≡ folded_delim)
get_elem?-fenced [] zs zero b l g = inr (ground arith)
get_elem?-fenced [] zs (suc h) b l g = absurd (omega arith)
get_elem?-fenced (x ∷ bs) zs h b l g = inl (sym (get_elem?-append_left (x ∷ bs) zs h l) ∙ g)

get_elem?-fenced_keeps :
    (bs zs : Bytes) (h b : ℕ) → get_elem? bs h ≡ some b → get_elem? (fenced bs ++ zs) h ≡ some b
get_elem?-fenced_keeps [] zs h b g = ground arith
get_elem?-fenced_keeps (x ∷ bs) zs h b g =
    get_elem?-append_left (x ∷ bs) zs h (lt_of_get_elem? (x ∷ bs) h g) ∙ g

slice-fenced_keeps :
    (bs zs : Bytes) (o l : ℕ) → o + l < length bs → slice (fenced bs ++ zs) o l ≡ slice bs o l
slice-fenced_keeps [] zs o l h = elim h [ ]
slice-fenced_keeps (b ∷ bs) zs o l h = slice-append_left (b ∷ bs) zs o l (omega arith)

last_delim :
    (xs ys : Bytes)
    → get_elem? (xs ++ (ys ++ folded_delim ∷ [])) (length xs + length ys) ≡ some folded_delim
last_delim xs ys = get_elem?-append_right xs (ys ++ folded_delim ∷ []) (length ys) ∙ behind ys
  where
    behind : (ys : Bytes) → get_elem? (ys ++ folded_delim ∷ []) (length ys) ≡ some folded_delim
    behind [] = refl
    behind (y ∷ ys) = behind ys

length-appended :
    (xs ys : Bytes) → length (xs ++ (ys ++ folded_delim ∷ [])) ≡ suc (length xs + length ys)
length-appended xs ys =
    omega (arith, length-append xs (ys ++ folded_delim ∷ []), length-append ys (folded_delim ∷ []))

-- A byte of the arena with a record appended.
byte_of_appended :
    (bs ys : Bytes) (h b : ℕ)
    → get_elem? (fenced bs ++ (ys ++ folded_delim ∷ [])) h ≡ some b
    → b ≢ folded_delim
    → (get_elem? bs h ≡ some b) ⊎ ((length (fenced bs) ≤ h) × (h < length (fenced bs) + length ys))
byte_of_appended bs ys h b g n = elim (Bool-cases (ltb h (length (fenced bs)))) [
  | inl y ↦ elim (get_elem?-fenced bs (ys ++ folded_delim ∷ []) h b (ground arith) g) [
    | inl k ↦ inl k
    | inr k ↦ absurd (n k)
  ]
  | inr y ↦ elim (Bool-cases (ltb h (length (fenced bs) + length ys))) [
    | inl z ↦ inr (ground arith)
    | inr z ↦
        let l = lt_of_get_elem? (fenced bs ++ (ys ++ folded_delim ∷ [])) h g in
        let p : length (fenced bs) + length ys ≡ h =
          ground (arith, length-appended (fenced bs) ys) in
        let d = last_delim (fenced bs) ys in absurd (at_end h b g n p d)
  ]
]
  where
    at_end :
        (h b : ℕ)
        → get_elem? (fenced bs ++ (ys ++ folded_delim ∷ [])) h ≡ some b
        → b ≢ folded_delim
        → length (fenced bs) + length ys ≡ h
        → get_elem? (fenced bs ++ (ys ++ folded_delim ∷ [])) (length (fenced bs) + length ys)
          ≡ some folded_delim
        → ⊥
    at_end h b g n p d = let d' = rw p at d in ground arith

before_appended :
    (bs zs : Bytes) (k : ℕ)
    → ((j : ℕ) → suc j ≡ length bs → get_elem? bs j ≡ some folded_delim)
    → suc k ≡ length (fenced bs)
    → get_elem? (fenced bs ++ zs) k ≡ some folded_delim
before_appended [] zs zero ends p = refl
before_appended [] zs (suc k) ends p = absurd (omega arith)
before_appended (x ∷ bs) zs k ends p = get_elem?-append_left (x ∷ bs) zs k (omega arith) ∙ ends k p

module _ (t : Table) (nfc folded : Bytes) (i : Interned) (a : Arenas)
    (app : Appended t.arenas nfc folded i a) (v : IsValid t) (f : IsFenced t 0 0) where
  pub with_arenas-IsFenced : IsFenced (with_arenas t a) i.folded_off (i.folded_off + i.folded_len)
  with_arenas-IsFenced = record {
    fences = λ s e l.
        let o = v.in_arenas s e l in
        let x = f.fences s e l in
        rw app.folded_eq (record {
          before = λ k p.
              get_elem?-fenced_keeps t.arenas.folded (folded ++ folded_delim ∷ []) k folded_delim
                (x.before k p);
          after =
              get_elem?-fenced_keeps t.arenas.folded (folded ++ folded_delim ∷ [])
                (e.folded_off + e.folded_len) folded_delim x.after;
          plain =
              rw
                (slice-fenced_keeps t.arenas.folded (folded ++ folded_delim ∷ []) e.folded_off
                  e.folded_len o.folded_in)
                x.plain;
        });
    cover = λ h b g n. covered h b (rw app.folded_eq at g) n;
    ends = λ k p.
        let q : k ≡ length (fenced t.arenas.folded) + length folded =
          omega (arith, length-appended (fenced t.arenas.folded) folded, rw app.folded_eq at p) in
        rw (q, app.folded_eq) (last_delim (fenced t.arenas.folded) folded);
  }
    where
      covered :
          (h b : ℕ)
          → get_elem? (fenced t.arenas.folded ++ (folded ++ folded_delim ∷ [])) h ≡ some b
          → b ≢ folded_delim
          → Owned (with_arenas t a) h ⊎ ((i.folded_off ≤ h) × (h < i.folded_off + i.folded_len))
      covered h b g n = elim (byte_of_appended t.arenas.folded folded h b g n) [
        | inr r ↦ inr (omega (arith, r, app.folded_off_eq, app.folded_len_eq))
        | inl k ↦ elim (f.cover h b k n) [
          | inr r ↦ absurd (omega arith)
          | inl o ↦ inl (record {
            slot = o.slot;
            entry = o.entry;
            live = o.live;
            from = o.from;
            below = o.below;
          })
        ]
      ]

  pub Placed-HasFences :
      (e : Entry) → Placed e i → has_control_byte folded ≡ false → HasFences a.folded e
  Placed-HasFences e p plain =
      let len : e.folded_off + e.folded_len ≡ length (fenced t.arenas.folded) + length folded =
        omega (arith, p, app.folded_off_eq, app.folded_len_eq) in
      record {
        before = λ k q. rw app.folded_eq (
            before_appended t.arenas.folded (folded ++ folded_delim ∷ []) k f.ends
              (q ∙ p.2 ∙ app.folded_off_eq));
        after = rw (app.folded_eq, len) (last_delim (fenced t.arenas.folded) folded);
        plain =
            rw
              (
                p.2,
                p.3,
                app.folded_off_eq,
                app.folded_len_eq,
                app.folded_eq,
                slice-append_at (fenced t.arenas.folded) folded (folded_delim ∷ []),
              )
              plain;
      }

-- The entry claims the record that stood unclaimed.
pub bind-IsFenced :
    (t : Table) (slot : ℕ) (e : Entry)
    → IsVacant t slot
    → is_dead e ≡ false
    → HasFences t.arenas.folded e
    → IsFenced t e.folded_off (e.folded_off + e.folded_len)
    → IsFenced (bind slot e t) 0 0
bind-IsFenced t slot e vacant live hf f = record {
  fences = λ s x l.
      unfold bind in
      elim (LiveAt-bind t slot e vacant s x l) [
        | inl (p, q) ↦ rw q hf
        | inr (n, l') ↦ f.fences s x l'
      ];
  cover = λ h b g n. elim (f.cover h b (unfold bind in g) n) [
    | inl o ↦ inl (record {
      slot = o.slot;
      entry = o.entry;
      live = LiveAt-bind_ne t slot e vacant o.slot o.entry o.live;
      from = o.from;
      below = o.below;
    })
    | inr r ↦ inl (record {
      slot = slot;
      entry = e;
      live = LiveAt-bind_self t slot e vacant live;
      from = r.0;
      below = r.1;
    })
  ];
  ends = unfold bind in f.ends;
}
