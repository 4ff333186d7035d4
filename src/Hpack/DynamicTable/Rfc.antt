-- ===== src/Hpack/DynamicTable/Rfc.antt =====
-- The table against the eviction of RFC 7541, sections 4.3 and 4.4.
use h2pp.Prelude.{
  ℕ, ◌+◌, ◌-◌, ◌^◌, ◌≤◌, ◌<◌, ◌≡◌, ◌≢◌, sym, ap, ◌∙◌, arith, ◌⊎◌, inl, inr, List, [], ◌∷◌, ok, leb,
  Bool-cases,
}
use h2pp.Hpack.DynamicTable.{Entry, DynamicTable, insert, update_size}
use h2pp.Hpack.DynamicTable.Shrink.{total}
use h2pp.Hpack.DynamicTable.Evict.{kept_entries, fitting, fitting_all}
use h2pp.Hpack.DynamicTable.Insert.{
  WellFormed, field_size, new_entry, insert-Inserted, update_size-WellFormed,
}

kept_entries-nil :
    (size : ℕ) (rs : List Entry)
    → size < total rs
    → total (fitting size rs) ≢ size
    → kept_entries size rs ≡ []
kept_entries-nil size rs h miss = ground arith

-- Where the longest front within the new limit falls short of the limit, `update_size` empties the
-- table, although RFC 7541 keeps that front.
pub update_size_overevicts :
    (t : DynamicTable) (size : ℕ)
    → WellFormed t
    → size < 2 ^ 63
    → size < t.table_size
    → fitting size t.table ≢ []
    → total (fitting size t.table) ≢ size
    → (t' : DynamicTable) × (update_size t size ≡ ok t')
      × (t'.table ≡ [])
      × (t'.table ≢ fitting size t.table)
update_size_overevicts t size w h over keeps miss =
    let (t', e, k, l, w') = update_size-WellFormed t size w h in
    let gone : t'.table ≡ [] = k ∙ kept_entries-nil size t.table (omega (arith, w.sized)) miss in
    (t', e, gone, λ same. keeps (sym same ∙ gone))

kept_entries-fitting :
    (size : ℕ) (rs : List Entry)
    → (total rs ≤ size) ⊎ (total (fitting size rs) ≡ size)
    → kept_entries size rs ≡ fitting size rs
kept_entries-fitting size rs (inl all) = ground (arith, fitting_all size rs)
kept_entries-fitting size rs (inr exact) = elim (Bool-cases (leb (total rs) size)) [
  | inl fits ↦ ground (arith, fitting_all size rs)
  | inr over ↦ ground arith
]

-- Where all entries fit the room that a new entry leaves, or those that fit fill it exactly,
-- `insert` keeps the entries that RFC 7541 keeps.
pub insert-fitting :
    (t t' : DynamicTable) (name value : List ℕ)
    → WellFormed t
    → field_size name value ≤ t.hpack_max_size
    → (t.table_size + field_size name value ≤ t.hpack_max_size)
      ⊎ (total (fitting (t.hpack_max_size - field_size name value) t.table)
          ≡ t.hpack_max_size - field_size name value)
    → insert t name value ≡ ok t'
    → t'.table
      ≡ new_entry name value (fitting (t.hpack_max_size - field_size name value) t.table)
        ∷ fitting (t.hpack_max_size - field_size name value) t.table
insert-fitting t t' name value w h good e =
    let (u, run, i) = insert-Inserted t name value w h in
    let room = t.hpack_max_size - field_size name value in
    let same : kept_entries room t.table ≡ fitting room t.table =
      kept_entries-fitting room t.table
        (elim good [ inl all ↦ inl (omega (arith, w.sized)) | inr exact ↦ inr exact ]) in
    let same_table : t' ≡ u = cc (e, run) in
    ap (λ (x : DynamicTable). x.table) same_table
    ∙ i.front
    ∙ ap (λ rest. new_entry name value rest ∷ rest) same
