-- ===== src/KvTest/Appends.antt =====
-- What the count of the entries of a value says of each client.
use pluggable_sharded_fault.Base.{
  ℕ, ◌+◌, ◌-◌, ◌≡◌, some, List, [], ◌∷◌, arith, eqb, eqb_iff, if◌then◌else◌, nat_eq, Option-cases,
  inl, inr, lookup-insert, get_or,
}
use pluggable_sharded_fault.KvTest.{EntryN, Counts, count_entry, count_entries}

-- How many entries a client has in the value
abbrev pub entries : ℕ → List EntryN → ℕ
entries id [] = 0
entries id (e ∷ es) = (if eqb e.id id then 1 else 0) + entries id es

count_entry-entries :
    (id : ℕ) (e : EntryN) (c r : Counts)
    → count_entry e c ≡ some r
    → get_or id 0 r.expect + get_or id 0 c.skipped
      ≡ get_or id 0 c.expect + (if eqb e.id id then 1 else 0) + get_or id 0 r.skipped
unfolding count_entry
count_entry-entries id e c r h =
    let due = get_or e.id 0 c.expect in
    ground (
      arith,
      lookup-insert e.id id (due + 1) c.expect,
      lookup-insert e.id id (e.n + 1) c.expect,
      lookup-insert e.id id (get_or e.id 0 c.skipped + (e.n - due)) c.skipped,
      eqb_iff e.id id,
    )

-- When no entry is out of order, what each client is expected to append next has grown by its
-- entries in the value and by those that were skipped.
pub count_entries-entries :
    (id : ℕ) (es : List EntryN) (c r : Counts)
    → count_entries es c ≡ some r
    → get_or id 0 r.expect + get_or id 0 c.skipped
      ≡ get_or id 0 c.expect + entries id es + get_or id 0 r.skipped
unfolding count_entries
count_entries-entries id [] c r h = ground arith
count_entries-entries id (e ∷ es) c r h = elim (Option-cases (count_entry e c)) [
  | inl old ↦ absurd (ground arith)
  | inr (next, one) ↦
      let first = count_entry-entries id e c next one in
      let more = count_entries-entries id es next r (ground (arith, one, h)) in
      omega (arith, first, more)
]
