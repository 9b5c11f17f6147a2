-- ===== src/Health/Report.antt =====
-- What `coord_health` reports of the lineage, and what its cut leaves of that.
use mcp_assist_memory.Prelude.{
  ◌≤◌, Text, some, List, [], ◌∷◌, ◌++◌, length, length-append, All, All-take, take-cases, ◌⊎◌, ℕ,
  All-In, In-All, In, In-append_left, In-append_right, ◌≡◌, ◌↔◌, refl, sym, ap, subst, arith, inl,
  inr,
}
use mcp_assist_memory.Store.Rows.{Row, Table}
use mcp_assist_memory.Store.Listing.{Collation}
use mcp_assist_memory.Health.{
  Taint, climb, named, climb_fuel, TaintedLineage, lineage_of, tainted_from, parents_of,
  tainted_lineage, health_rows, coord_health,
}
use mcp_assist_memory.Health.Lineage.{
  IsTainted, IsHit, Descends, parent, climb_sound, climb-complete,
}
use mcp_assist_memory.Health.Total.{climb-ends}

-- The parents of an entry are named.
named-In :
    (k : Text) (ps : List Text) (m : List (Text × List Text))
    → In {A = Text × List Text} (k, ps) m
    → All (λ q. In q (named m)) ps × (length ps ≤ length (named m))
unfolding named
named-In k ps [] h = absurd h
named-In k ps ((j, qs) ∷ m) (inl e) =
    subst
      (λ (x : Text × List Text).
        All (λ q. In q (qs ++ named m)) x.1 × (length x.1 ≤ length (qs ++ named m)))
      (sym e)
      (
        In-All (λ q. In q (qs ++ named m)) qs (λ q n. In-append_left q qs (named m) n),
        omega (arith, length-append qs (named m)),
      )
named-In k ps ((j, qs) ∷ m) (inr h) =
    let (a, b) = named-In k ps m h in (later ps a, omega (arith, b, length-append qs (named m)))
  where
    later : (rs : List Text) → All (λ q. In q (named m)) rs → All (λ q. In q (qs ++ named m)) rs
    later [] a = tt
    later (q ∷ rs) (a, b) = (In-append_right q qs (named m) a, later rs b)

module _ (tainted : List (Text × Taint)) (parents : List (Text × List Text)) where
  -- the tainted keys that an entry descends from, all of them and no others
  abbrev pub IsAncestry : List Text → List Text → Type 0
  IsAncestry ps out =
      (p : Text) → (In p out) ↔ (Descends tainted parents ps p × IsTainted tainted parents p)

  climb-exact :
      (k : Text) (ps : List Text)
      → In {A = Text × List Text} (k, ps) parents
      → (out : List Text) × (climb tainted parents (climb_fuel parents) [] ps [] ≡ some out)
        × IsAncestry ps out
  climb-exact k ps m =
      let (a, b) = named-In k ps parents m in
      let (out, e) = climb-ends tainted parents ps a b in
      (
        out,
        e,
        λ p. (
          λ n.
              All-In (IsHit tainted parents ps) p out
                (climb_sound tainted parents ps (climb_fuel parents) [] ps [] out
                  (In-All (Descends tainted parents ps) ps (λ q h. parent q h)) tt e)
                n,
          λ (d, t).
              climb-complete tainted parents ps (climb_fuel parents) [] ps [] out
                (record {
                  starts = λ q h. inr h;
                  follows = λ q s h n. absurd h;
                  found = λ q h u. absurd h;
                })
                e p d t,
        ),
      )

  -- one item of the report: an entry, and all its tainted ancestors
  abbrev pub IsReport : List (Text × List Text) → TaintedLineage → Type 0
  IsReport m item =
      (ps : List Text) × In {A = Text × List Text} (item.key, ps) m × IsAncestry ps item.ancestors

  -- The entries of a list are reported where they have a tainted ancestor.
  abbrev pub Reports : List (Text × List Text) → List TaintedLineage → Type 0
  Reports m report =
      (k : Text) (ps : List Text) (p : Text)
      → In {A = Text × List Text} (k, ps) m
      → Descends tainted parents ps p
      → IsTainted tainted parents p
      → (item : TaintedLineage) × In item report × (item.key ≡ k) × IsAncestry ps item.ancestors

  abbrev Within : List (Text × List Text) → Type 0
  Within m =
      (k : Text) (ps : List Text)
      → In {A = Text × List Text} (k, ps) m
      → In {A = Text × List Text} (k, ps) parents

  -- The report on one entry more, by what the loop found for it.
  lineage_of-none :
      (k : Text) (ps : List Text) (m : List (Text × List Text))
      → climb tainted parents (climb_fuel parents) [] ps [] ≡ some []
      → lineage_of tainted parents ((k, ps) ∷ m) ≡ lineage_of tainted parents m
  unfolding lineage_of
  lineage_of-none k ps m e = rw (e, lineage_of)

  lineage_of-some :
      (k : Text) (ps : List Text) (m : List (Text × List Text)) (h : Text) (hits : List Text)
      → climb tainted parents (climb_fuel parents) [] ps [] ≡ some (h ∷ hits)
      → lineage_of tainted parents ((k, ps) ∷ m)
        ≡ record { key = k; ancestors = h ∷ hits } ∷ lineage_of tainted parents m
  unfolding lineage_of
  lineage_of-some k ps m h hits e = rw (e, lineage_of)

  IsReport-later :
      (e : Text × List Text) (m : List (Text × List Text)) (report : List TaintedLineage)
      → All (IsReport m) report
      → All (IsReport (e ∷ m)) report
  IsReport-later e m [] a = tt
  IsReport-later e m (item ∷ report) ((ps, n, anc), a) =
      ((ps, inr n, anc), IsReport-later e m report a)

  abbrev IsExact : List (Text × List Text) → List TaintedLineage → Type 0
  IsExact m report = All (IsReport m) report × Reports m report

  IsAncestry-at :
      (k j : Text) (ps qs out : List Text)
      → ◌≡◌ {A = Text × List Text} (j, qs) (k, ps)
      → IsAncestry ps out
      → IsAncestry qs out
  IsAncestry-at k j ps qs out e anc =
      subst (λ (x : Text × List Text). IsAncestry x.1 out) (sym e) anc

  IsExact-more :
      (k : Text) (ps : List Text) (m : List (Text × List Text)) (out : List Text)
      → climb tainted parents (climb_fuel parents) [] ps [] ≡ some out
      → IsAncestry ps out
      → IsExact m (lineage_of tainted parents m)
      → IsExact ((k, ps) ∷ m) (lineage_of tainted parents ((k, ps) ∷ m))
  IsExact-more k ps m [] e anc (a, b) = rw (lineage_of-none k ps m e) (
    IsReport-later (k, ps) m (lineage_of tainted parents m) a,
    λ j qs p n d t. reported j qs p n d t,
  )
    where
      reported : Reports ((k, ps) ∷ m) (lineage_of tainted parents m)
      reported j qs p (inl q) d t = absurd ((IsAncestry-at k j ps qs [] q anc p).1 (d, t))
      reported j qs p (inr n) d t = b j qs p n d t
  IsExact-more k ps m (h ∷ hits) e anc (a, b) = rw (lineage_of-some k ps m h hits e) (
    ((ps, inl refl, anc), IsReport-later (k, ps) m (lineage_of tainted parents m) a),
    λ j qs p n d t. reported j qs p n d t,
  )
    where
      reported :
          Reports
            ((k, ps) ∷ m)
            (record { key = k; ancestors = h ∷ hits } ∷ lineage_of tainted parents m)
      reported j qs p (inl q) d t = (
        record { key = k; ancestors = h ∷ hits },
        inl refl,
        sym (ap (λ (x : Text × List Text). x.0) q),
        IsAncestry-at k j ps qs (h ∷ hits) q anc,
      )
      reported j qs p (inr n) d t = let (item, x, y, z) = b j qs p n d t in (item, inr x, y, z)

  lineage_of-IsExact :
      (m : List (Text × List Text)) → Within m → IsExact m (lineage_of tainted parents m)
  lineage_of-IsExact [] w = (unfold lineage_of in tt, λ j qs p n d t. absurd n)
  lineage_of-IsExact ((k, ps) ∷ m) w =
      let (out, e, anc) = climb-exact k ps (w k ps (inl refl)) in
      IsExact-more k ps m out e anc (lineage_of-IsExact m (λ j qs n. w j qs (inr n)))

tainted_lineage-IsExact :
    (rows : List Row)
    → All
        (IsReport (tainted_from rows []) (parents_of rows) (parents_of rows))
        (tainted_lineage rows)
      × Reports (tainted_from rows []) (parents_of rows) (parents_of rows) (tainted_lineage rows)
unfolding tainted_lineage
tainted_lineage-IsExact rows =
    lineage_of-IsExact (tainted_from rows []) (parents_of rows) (parents_of rows) (λ k ps n. n)

-- What is returned on lineage is exact: every item names a live entry with its tainted ancestors, all
-- of them and no others, however the references between entries run (in a circle too); and every
-- live entry that descends from a tainted one is returned, unless as many items as `limit` are.
pub tainted_lineage-exact :
    (order : Collation) (now window limit : ℕ) (ns : Text) (t : Table)
    → let rows = health_rows order now ns t in
      let report = (coord_health order now window limit ns t).tainted in
      All (IsReport (tainted_from rows []) (parents_of rows) (parents_of rows)) report
      × ((length report ≡ limit)
          ⊎ Reports (tainted_from rows []) (parents_of rows) (parents_of rows) report)
unfolding coord_health
tainted_lineage-exact order now window limit ns t =
    let rows = health_rows order now ns t in
    let (a, b) = tainted_lineage-IsExact rows in
    (
      All-take (IsReport (tainted_from rows []) (parents_of rows) (parents_of rows)) limit
          (tainted_lineage rows) a,
      elim (take-cases limit (tainted_lineage rows)) [
        | inl e ↦ inl e
        | inr e ↦
            inr
              (subst (Reports (tainted_from rows []) (parents_of rows) (parents_of rows)) (sym e) b)
      ],
    )
