-- ===== src/Pia/Regions/Search.antt =====
-- The search of FindRegion in the list.
use piaproxy.Base.{
  ◌≡◌, ◌↔◌, inl, inr, ap, true, false, some, List, [], ◌∷◌, ◌++◌, arith, All, Bytes, Bool-cases,
}
use piaproxy.Pia.Regions.{ListText, Region, search_region}

module _ (text : ListText) where
  -- `r` is the first region of the list whose ID is `id` up to case.
  pub record FirstMatch (id : Bytes) (rs : List Region) (r : Region) : Type 0 where
    pub before : List Region
    pub after : List Region
    pub splits : rs ≡ before ++ r ∷ after
    pub matches : text.equal_fold r.id id ≡ true
    pub skipped : All (λ x. text.equal_fold x.id id ≡ false) before

  found :
      (id : Bytes) (rs : List Region) (r : Region)
      → search_region text id rs ≡ some r
      → FirstMatch id rs r
  unfolding search_region
  found id [] r e = absurd (ground arith)
  found id (x ∷ rs) r e = elim (Bool-cases (text.equal_fold x.id id)) [
    | inl hit ↦
        let same : x ≡ r = ground arith in
        record {
          before = [];
          after = rs;
          splits = ap (λ (y : Region). y ∷ rs) same;
          matches = rw (← same) hit;
          skipped = tt;
        }
    | inr miss ↦
        let m = found id rs r (ground arith) in
        record {
          before = x ∷ m.before;
          after = m.after;
          splits = ap (◌∷◌ x) m.splits;
          matches = m.matches;
          skipped = (miss, m.skipped);
        }
  ]

  find-before :
      (id : Bytes) (before after : List Region) (r : Region)
      → text.equal_fold r.id id ≡ true
      → All (λ x. text.equal_fold x.id id ≡ false) before
      → search_region text id (before ++ r ∷ after) ≡ some r
  unfolding search_region
  find-before id [] after r h s = rw h
  find-before id (x ∷ before) after r h s = rw s.0 (find-before id before after r h s.1)

  -- The search of FindRegion returns a region exactly when it is the first of the list with that
  -- ID up to case.
  pub search_region_iff :
      (id : Bytes) (rs : List Region) (r : Region)
      → (search_region text id rs ≡ some r) ↔ FirstMatch id rs r
  search_region_iff id rs r =
      (found id rs r, λ m. rw m.splits (find-before id m.before m.after r m.matches m.skipped))
