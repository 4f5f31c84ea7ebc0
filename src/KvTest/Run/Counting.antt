-- ===== src/KvTest/Run/Counting.antt =====
-- The count of the entries when a client appends one.
use pluggable_sharded_fault.Base.{
  ℕ, zero, suc, ◌+◌, ◌-◌, ◌≤◌, ◌<◌, ◌≡◌, some, List, [], ◌∷◌, ◌++◌, if◌then◌else◌, string_eq,
  nat_eq, eqb, arith, All, length, length-append, get_or, insert, lookup-insert, Map, Option-cases,
  Bool-cases, inl, inr,
}
use pluggable_sharded_fault.KvTest.{EntryN, Counts, count_entry, count_entries, clear_from}
use pluggable_sharded_fault.KvTest.Appends.{entries}
use pluggable_sharded_fault.KvTest.Run.{Client, appended}

-- An entry that is not old is counted, and its number is expected next.
pub count_entry-some :
    (e : EntryN) (c : Counts)
    → get_or e.id 0 c.expect ≤ e.n
    → (r : Counts) × (count_entry e c ≡ some r)
      × ((id : ℕ) → get_or id 0 r.expect ≡ (if eqb e.id id then e.n + 1 else get_or id 0 c.expect))
unfolding count_entry
count_entry-some e c young = elim (Bool-cases (eqb (get_or e.id 0 c.expect) e.n)) [
  | inl due ↦ (
    record c { expect = insert e.id (get_or e.id 0 c.expect + 1) c.expect },
    ground (arith, young, due),
    λ id. ground (arith, due, lookup-insert e.id id (get_or e.id 0 c.expect + 1) c.expect),
  )
  | inr skips ↦ (
    record {
      expect = insert e.id (e.n + 1) c.expect;
      skipped = insert e.id (get_or e.id 0 c.skipped + (e.n - get_or e.id 0 c.expect)) c.skipped;
    },
    ground (arith, young, skips),
    λ id. ground (arith, lookup-insert e.id id (e.n + 1) c.expect),
  )
]

pub count_entries-append :
    (es : List EntryN) (e : EntryN) (c q r : Counts)
    → count_entries es c ≡ some q
    → count_entry e q ≡ some r
    → count_entries (es ++ (e ∷ [])) c ≡ some r
unfolding count_entries
count_entries-append [] e c q r all one = ground (arith, all, one)
count_entries-append (x ∷ es) e c q r all one = elim (Option-cases (count_entry x c)) [
  | inl none_there ↦ absurd (ground (arith, all, none_there))
  | inr (d, first) ↦
      let rest = count_entries-append es e d q r (ground (arith, all, first)) one in
      ground (arith, first, rest)
]

pub entries-append :
    (id : ℕ) (es : List EntryN) (e : EntryN)
    → entries id (es ++ (e ∷ [])) ≡ entries id es + (if eqb e.id id then 1 else 0)
entries-append id [] e = omega arith
entries-append id (x ∷ es) e = omega (arith, entries-append id es e)

pub All-append :
    (n : ℕ) (es : List EntryN) (e : EntryN)
    → All (λ x. x.id < n) es
    → e.id < n
    → All (λ x. x.id < n) (es ++ (e ∷ []))
All-append n [] e all h = (h, tt)
All-append n (x ∷ es) e (this, all) h = (this, All-append n es e all h)

-- Every client starts at 0.
pub clear_from-zero :
    (k i n : ℕ) (m : Map ℕ ℕ) → get_or k 0 m ≡ 0 → get_or k 0 (clear_from i n m) ≡ 0
unfolding clear_from
clear_from-zero k i zero m h = h
clear_from-zero k i (suc n) m h =
    clear_from-zero k (i + 1) n (insert i 0 m) (ground (arith, h, lookup-insert i k 0 m))

pub length-appended :
    (me : ℕ) (c : Client) (es : List EntryN) → length (appended me c es) ≡ length es + 1
unfolding appended
length-appended me c es = length-append es (record { id = me; n = c.i } ∷ [])

pub ids-appended :
    {n : ℕ} (me : ℕ) (c : Client) (es : List EntryN)
    → All (λ e. e.id < n) es
    → me < n
    → All (λ e. e.id < n) (appended me c es)
unfolding appended
ids-appended {n} me c es all small = All-append n es (record { id = me; n = c.i }) all small

pub counted-appended :
    (me : ℕ) (c : Client) (es : List EntryN) (begin r q : Counts)
    → count_entries es begin ≡ some r
    → count_entry (record { id = me; n = c.i }) r ≡ some q
    → count_entries (appended me c es) begin ≡ some q
unfolding appended
counted-appended me c es begin r q = count_entries-append es (record { id = me; n = c.i }) begin r q
