-- ===== src/Schema/Index.antt =====
-- The blind index and the search agree on index names and normal forms.
use sealbox.Base.{
  ℕ, ◌-◌, ◌≡◌, ◌≢◌, ◌⊎◌, refl, sym, ap, ◌∙◌, inl, inr, false, ◌&&◌, not, Option, none, some, [],
  ◌∷◌, Text, codes, ◌==◌, eq_iff, Dict, lookup, insert, lookup-insert, ok, err, >>=-eq-ok,
  Result-cases, absent_tail, append_cancel_right, IsDistinct, if◌then◌else◌, length-append, arith,
  All, Option-cases, Bool-cases, length, drop, eqb,
}
use sealbox.Json.{Json, unmarshal_string}
use sealbox.Schema.{
  last4_only, Field, Schema, fragment_last4, last4_index, contains, fields_of, not_searchable,
  call_normalize, index_value, index_field, index_loop, indexed, Query, normalize_for, normalize,
}
use sealbox.Schema.WellFormed.{IsSound, IsWellFormed, fields_of-IsSound, call_normalize-ok}

drop_none : (n : Text) → length n ≡ 4 → drop (length n - 4) n ≡ n
drop_none n e = rw e

module _ (to_lower : ℕ → ℕ) where
  index_field-ok :
      (name : Text) (f : Field) (raw : Option Json) (out : Dict Text)
      → IsSound to_lower f
      → (out' : Dict Text) × (index_field to_lower name f raw out ≡ ok out')
  unfolding index_field
  index_field-ok name f none out w = (out, refl)
  index_field-ok name f (some raw) out w = elim (Bool-cases (not_searchable f)) [
    | inl skipped ↦ (out, ground arith)
    | inr searchable ↦ elim (Option-cases (unmarshal_string raw)) [
      | inl other ↦ (out, ground arith)
      | inr (v, text) ↦
          let (n, called) = call_normalize-ok to_lower f v w searchable in
          (index_value name f n out, ground (arith, called))
    ]
  ]

  index_loop-ok :
      (fields : Dict Field) (object : Dict Json) (out : Dict Text)
      → All (λ (e : Text × Field). IsSound to_lower e.1) fields
      → (out' : Dict Text) × (index_loop to_lower fields object out ≡ ok out')
  unfolding index_loop
  index_loop-ok [] object out w = (out, refl)
  index_loop-ok ((name, f) ∷ rest) object out w =
      let (mid, first) = index_field-ok name f (lookup name object) out w.0 in
      let (out', later) = index_loop-ok rest object mid w.1 in (out', rw first later)

  -- Under a schema that `Parse` accepts `Indexed` never calls a nil function: it returns a map,
  -- whatever the object.
  pub indexed_total :
      (s : Schema) (collection : Text) (object : Dict Json)
      → IsWellFormed to_lower s
      → (out : Dict Text) × (indexed to_lower s collection object ≡ ok out)
  unfolding indexed
  indexed_total s collection object w =
      index_loop-ok (fields_of s collection) object [] (fields_of-IsSound to_lower s collection w)

  index_value_other :
      (name ix n : Text) (f : Field) (out : Dict Text)
      → name ≢ ix
      → last4_index name ≢ ix
      → lookup ix (index_value name f n out) ≡ lookup ix out
  unfolding index_value
  index_value_other name ix n f out a b = ground (
    arith,
    eq_iff name ix,
    eq_iff (last4_index name) ix,
    lookup-insert name ix n out,
    lookup-insert (last4_index name) ix (drop (length n - 4) n) out,
    lookup-insert (last4_index name) ix (drop (length n - 4) n) (insert name n out),
  )

  index_field_other :
      (name ix : Text) (f : Field) (raw : Option Json) (out out' : Dict Text)
      → index_field to_lower name f raw out ≡ ok out'
      → name ≢ ix
      → last4_index name ≢ ix
      → lookup ix out' ≡ lookup ix out
  unfolding index_field
  index_field_other name ix f none out out' h a b = cc
  index_field_other name ix f (some raw) out out' h a b = elim (Bool-cases (not_searchable f)) [
    | inl skipped ↦ ground arith
    | inr searchable ↦ elim (Option-cases (unmarshal_string raw)) [
      | inl other ↦ ground arith
      | inr (v, text) ↦
          let (n, called, written) =
            >>=-eq-ok (call_normalize to_lower f.type v) (λ n. ok (index_value name f n out))
              {b = out'} (ground arith) in
          cc (index_value_other name ix n f out a b, written)
    ]
  ]

  -- No declared field writes this index.
  abbrev Leaves : Text → Dict Field → Type 0
  Leaves ix fields = All (λ (e : Text × Field). (e.0 ≢ ix) × (last4_index e.0 ≢ ix)) fields

  index_loop_other :
      (ix : Text) (fields : Dict Field) (object : Dict Json) (out out' : Dict Text)
      → index_loop to_lower fields object out ≡ ok out'
      → Leaves ix fields
      → lookup ix out' ≡ lookup ix out
  unfolding index_loop
  index_loop_other ix [] object out out' h l = cc
  index_loop_other ix ((name, f) ∷ rest) object out out' h ((a, b), l) =
      let (mid, first, later) =
        >>=-eq-ok (index_field to_lower name f (lookup name object) out)
          (index_loop to_lower rest object) h in
      index_loop_other ix rest object mid out' later l
      ∙ index_field_other name ix f (lookup name object) out mid first a b

  last4_index-ne_self : (name : Text) → last4_index name ≢ name
  unfolding last4_index
  last4_index-ne_self name e =
      omega (arith, ap (length {A = ℕ}) e, length-append {0} name (codes "#last4"))

  index_value_query :
      (name n : Text) (f : Field) (out : Dict Text) (q : Query)
      → (if eqb (length n) 4 && contains f.fragments fragment_last4
          then ok (record { index = last4_index name; normalized = n })
          else if not f.index
          then err (last4_only name)
          else ok (record { index = name; normalized = n }))
        ≡ ok q
      → lookup q.index (index_value name f n out) ≡ some q.normalized
  unfolding index_value
  index_value_query name n f out q h = ground (
    arith,
    drop_none n,
    last4_index-ne_self name,
    eq_iff name q.index,
    eq_iff (last4_index name) q.index,
    lookup-insert name q.index n out,
    lookup-insert (last4_index name) q.index (drop (length n - 4) n) out,
    lookup-insert (last4_index name) q.index (drop (length n - 4) n) (insert name n out),
  )

  normalize_for_index :
      (name w : Text) (f : Field) (q : Query)
      → normalize_for to_lower name f w ≡ ok q
      → (not_searchable f ≡ false) × ((q.index ≡ name) ⊎ (q.index ≡ last4_index name))
  unfolding normalize_for
  normalize_for_index name w f q h = ground arith

  index_field_query :
      (name w : Text) (f : Field) (out out' : Dict Text) (q : Query)
      → normalize_for to_lower name f w ≡ ok q
      → index_field to_lower name f (some (Json.str w)) out ≡ ok out'
      → lookup q.index out' ≡ some q.normalized
  unfolding index_field unmarshal_string normalize_for
  index_field_query name w f out out' q asked stored = elim (Bool-cases (not_searchable f)) [
    | inl skipped ↦ cc (asked, skipped)
    | inr searchable ↦ elim (Result-cases (call_normalize to_lower f.type w)) [
      | inl (n, called) ↦
          let known = index_value_query name n f out q (ground (arith, called)) in
          ground (arith, called, known)
      | inr (e, failed) ↦ ground (arith, failed)
    ]
  ]

  -- No declared field carries the index name of another field's fragment.
  abbrev pub HasNoClash : Dict Field → Type 0
  HasNoClash fields = (name : Text) → lookup (last4_index name) fields ≡ none

  last4_index-injective : (j k : Text) → last4_index j ≡ last4_index k → j ≡ k
  unfolding last4_index
  last4_index-injective j k e = append_cancel_right j k (codes "#last4") e

  others_leave :
      (name : Text) (rest : Dict Field) (ix : Text)
      → lookup name rest ≡ none
      → HasNoClash rest
      → ((j : Text) → last4_index j ≢ name)
      → (ix ≡ name) ⊎ (ix ≡ last4_index name)
      → Leaves ix rest
  others_leave name [] ix absent clash apart which = tt
  others_leave name ((k, g) ∷ rest) ix absent clash apart which =
      let (other, absent') = absent_tail name k g rest absent in
      let (unlike, _) = absent_tail (last4_index name) k g rest (clash name) in
      (
        (
          λ e. ground (arith, which, e, other, unlike),
          λ e. ground (arith, which, e, apart k, other, last4_index-injective k name),
        ),
        others_leave name rest ix absent' (λ j. (absent_tail (last4_index j) k g rest (clash j)).1)
            apart which,
      )

  index_loop_query :
      (name w : Text) (f : Field) (fields : Dict Field) (object : Dict Json) (out out' : Dict Text)
      (q : Query)
      → IsDistinct fields
      → HasNoClash fields
      → lookup name fields ≡ some f
      → lookup name object ≡ some (Json.str w)
      → normalize_for to_lower name f w ≡ ok q
      → index_loop to_lower fields object out ≡ ok out'
      → lookup q.index out' ≡ some q.normalized
  unfolding index_loop lookup
  index_loop_query name w f [] object out out' q d clash found given asked stored = cc
  index_loop_query name w f ((k, g) ∷ rest) object out out' q d clash found given asked stored =
      let (mid, first, later) =
        >>=-eq-ok (index_field to_lower k g (lookup k object) out) (index_loop to_lower rest object)
          stored in
      let tail = λ (j : Text). absent_tail (last4_index j) k g rest (clash j) in
      elim (Bool-cases (k == name)) [
        | inl same ↦
            let key : k ≡ name = (eq_iff k name).0 same in
            let field : g ≡ f = ground arith in
            let first' : index_field to_lower name f (some (Json.str w)) out ≡ ok mid =
              cc (first, key, field, given) in
            let absent : lookup name rest ≡ none = cc (d.0, key) in
            index_loop_other q.index rest object mid out' later (
              others_leave name rest q.index absent (λ j. (tail j).1)
                (λ j e. (tail j).0 (key ∙ sym e)) (normalize_for_index name w f q asked).1)
            ∙ index_field_query name w f out mid q asked first'
        | inr other ↦
            index_loop_query name w f rest object mid out' q d.1 (λ j. (tail j).1) (ground arith)
              given asked later
      ]

  normalize_field :
      (s : Schema) (collection field value : Text) (q : Query)
      → normalize to_lower s collection field value ≡ ok q
      → (f : Field) × (lookup field (fields_of s collection) ≡ some f)
        × (normalize_for to_lower field f value ≡ ok q)
  unfolding normalize
  normalize_field s collection field value q h =
      elim (Option-cases (lookup field (fields_of s collection))) [
        | inl missing ↦ cc (h, missing)
        | inr (f, found) ↦ (f, found, ground (arith, found))
      ]

  -- A search finds what the index holds: if `Normalize` turns the searched value into a query, and
  -- turns the stored one into the same, then in every object that has the stored value in this
  -- field, `Indexed` writes the query's normal form under the query's index name. The schema is
  -- one that `Parse` accepts, its fields have distinct names, and none of them is named like the
  -- fragment index of a field.
  pub indexed-normalize :
      (s : Schema) (collection field searched stored : Text) (object : Dict Json) (q : Query)
      → IsWellFormed to_lower s
      → IsDistinct (fields_of s collection)
      → HasNoClash (fields_of s collection)
      → normalize to_lower s collection field searched ≡ ok q
      → normalize to_lower s collection field stored
        ≡ normalize to_lower s collection field searched
      → lookup field object ≡ some (Json.str stored)
      → (out : Dict Text) × (indexed to_lower s collection object ≡ ok out)
        × (lookup q.index out ≡ some q.normalized)
  indexed-normalize s collection field searched stored object q w d clash asked same given =
      let (out, written) = indexed_total s collection object w in
      let (f, found, asked') = normalize_field s collection field stored q (same ∙ asked) in
      (
        out,
        written,
        index_loop_query field stored f (fields_of s collection) object [] out q d clash found given
            asked' (unfold indexed in written),
      )
