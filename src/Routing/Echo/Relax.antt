-- ===== src/Routing/Echo/Relax.antt =====
-- The loop of `register_echo` over the destinations, row by row.
use networking_project_chat.Prelude.{
  ℕ, zero, suc, ◌+◌, ◌≤◌, Option, some, Bool, true, false, not, ◌&&◌, ◌||◌, ◌==◌, ltb, leb, u8,
  length, ◌≡◌, ◌≢◌, refl, ap, ◌∙◌, if◌then◌else◌, arith, Bool-cases, inl, inr, ◌>>=◌,
}
use native.Mathlib.Decide.{ℕ_discrete}
use networking_project_chat.Prelude.Assoc.{
  find, insert_or_assign, find-insert_or_assign, length-insert_or_assign,
}
use networking_project_chat.Routing.Route.{Route, Table}
use networking_project_chat.Routing.Echo.{relax_row, relax_dest, relax_from}

-- The table has a row for each of the numbers from 1 to 4.
abbrev pub HasRows : Table → Type 0
HasRows t = (i : ℕ) → 1 ≤ i → i ≤ 4 → (r : Route) × (find i t ≡ some r)

-- Whether the offer of a neighbour replaces a row.
unfoldable pub replaces : Route → Route → Bool
replaces offered row =
    not (offered.cost == 5)
    && not (ltb 7 (u8 (offered.cost + 1)))
    && (ltb (u8 (offered.cost + 1)) row.cost || row.cost == 5 || row.ttl == 0)

-- The row of a destination after the offer.
unfoldable pub relaxed : ℕ → Route → Route → Route
unfolding replaces
relaxed src offered row =
    if replaces offered row
    then record row { cost = u8 (offered.cost + 1); next_hop = src; ttl = 40 }
    else row

module _ (my_addr src : ℕ) (recv : Table) where
  -- What one round does to the table.
  record Round (i : ℕ) (offered row : Route) (s : Table × Bool) (out : Option (Table × Bool))
      : Type 0 where
    table : Table
    changes : Bool
    returns : out ≡ some (table, changes)
    here : find i table ≡ some (relaxed src offered row)
    elsewhere : (j : ℕ) → j ≢ i → find j table ≡ find j s.0
    size : length table ≡ length s.0

  relax_dest_lem :
      (i : ℕ) (offered row : Route) (t : Table) (c : Bool)
      → my_addr ≢ i
      → find i recv ≡ some offered
      → find i t ≡ some row
      → relax_dest my_addr src recv (t, c) i
        ≡ some (
            if offered.cost == 5
            then (t, if row.next_hop == src then true else c)
            else if ltb 7 (u8 (offered.cost + 1))
            then (t, c)
            else relax_row src (u8 (offered.cost + 1)) row t c i)
  unfolding relax_dest
  relax_dest_lem i offered row t c ne o r = rw (not_me, o, relax_dest, r) (ground (arith, not_me'))
    where
      not_me : (my_addr == i) ≡ false
      not_me = ground (arith, ne)

      not_me' : (i == my_addr) ≡ false
      not_me' = ground (arith, ne)

  relax_dest-Round :
      (i : ℕ) (offered row : Route) (t : Table) (c : Bool)
      → my_addr ≢ i
      → find i recv ≡ some offered
      → find i t ≡ some row
      → Round i offered row (t, c) (relax_dest my_addr src recv (t, c) i)
  unfolding relax_row relaxed
  relax_dest-Round i offered row t c ne o r = elim (Bool-cases (replaces offered row)) [
    | inl yes_it_does ↦ record {
      table =
          insert_or_assign i (record row { cost = u8 (offered.cost + 1); next_hop = src; ttl = 40 })
            t;
      changes = true;
      returns = relax_dest_lem i offered row t c ne o r ∙ ground arith;
      here = ground (
        arith,
        find-insert_or_assign i i
            (record row { cost = u8 (offered.cost + 1); next_hop = src; ttl = 40 }) t,
      );
      elsewhere = λ j ne'. ground (
        arith,
        find-insert_or_assign i j
            (record row { cost = u8 (offered.cost + 1); next_hop = src; ttl = 40 }) t,
      );
      size = ground (
        arith,
        length-insert_or_assign i
            (record row { cost = u8 (offered.cost + 1); next_hop = src; ttl = 40 }) t,
      );
    }
    | inr it_does_not ↦ record {
      table = t;
      changes =
          if offered.cost == 5
          then (if row.next_hop == src then true else c)
          else if ltb 7 (u8 (offered.cost + 1))
          then c
          else if ltb row.cost (u8 (offered.cost + 1)) && not (row.next_hop == src)
          then true
          else c;
      returns = relax_dest_lem i offered row t c ne o r ∙ ground arith;
      here = ground arith;
      elsewhere = λ j ne'. refl;
      size = refl;
    }
  ]

  -- The row of destination `j` with the offer for it taken into account.
  abbrev pub relaxed_row : Table → ℕ → Option Route
  relaxed_row t j = do offered ← find j recv; row ← find j t; some (relaxed src offered row)

  abbrev pub row_after : ℕ → ℕ → Table → ℕ → Option Route
  row_after lo hi t j =
      if leb lo j && ltb j hi && not (my_addr == j) then relaxed_row t j else find j t

  -- What the rounds from `lo` to below `hi` do: they end, each destination but the node itself has
  -- its row relaxed, and no other row changes.
  pub record Rounds (lo hi : ℕ) (s : Table × Bool) (out : Option (Table × Bool)) : Type 0 where
    pub table : Table
    pub changes : Bool
    pub returns : out ≡ some (table, changes)
    pub rows : (j : ℕ) → find j table ≡ row_after lo hi s.0 j
    pub size : length table ≡ length s.0

  relax_dest_self :
      (i : ℕ) (s : Table × Bool) → my_addr ≡ i → relax_dest my_addr src recv s i ≡ some s
  unfolding relax_dest
  relax_dest_self i (t, c) e = ground arith

  Round-HasRows :
      (i : ℕ) (offered row : Route) (s : Table × Bool) (out : Option (Table × Bool))
      (first : Round i offered row s out)
      → HasRows s.0
      → HasRows first.table
  Round-HasRows i offered row s out first has j p q = elim (ℕ_discrete j i) [
    | yes same ↦ (relaxed src offered row, ap (λ k. find k first.table) same ∙ first.here)
    | no other ↦ let (r, e) = has j p q in (r, first.elsewhere j other ∙ e)
  ]

  -- One round and then the others.
  rows-suc :
      (lo left j : ℕ) (offered row : Route) (s : Table × Bool) (out : Option (Table × Bool))
      (final : Table)
      → my_addr ≢ lo
      → find lo recv ≡ some offered
      → find lo s.0 ≡ some row
      → (first : Round lo offered row s out)
      → find j final ≡ row_after (lo + 1) (lo + 1 + left) first.table j
      → find j final ≡ row_after lo (lo + suc left) s.0 j
  rows-suc lo left j offered row s out final ne o r first rest = elim (ℕ_discrete j lo) [
    | yes same ↦ rest ∙ rw same (ground (arith, o, r, first.here))
    | no other ↦
        rest
        ∙ rw (first.elsewhere j other)
            (ap (λ b. if b then relaxed_row s.0 j else find j s.0) (in_range other))
  ]
    where
      in_range :
          j ≢ lo
          → (leb (lo + 1) j && ltb j (lo + 1 + left) && not (my_addr == j))
            ≡ (leb lo j && ltb j (lo + suc left) && not (my_addr == j))
      in_range other = ground (arith, other)

  pub relax_from-Rounds :
      (left lo : ℕ) (t : Table) (c : Bool)
      → HasRows recv
      → HasRows t
      → 1 ≤ lo
      → lo + left ≤ 5
      → Rounds lo (lo + left) (t, c) (relax_from left lo my_addr src recv (t, c))
  unfolding relax_from
  relax_from-Rounds zero lo t c offers has p q = record {
    table = t;
    changes = c;
    returns = refl;
    rows = λ j. ground arith;
    size = refl;
  }
  relax_from-Rounds (suc left) lo t c offers has p q = elim (ℕ_discrete my_addr lo) [
    | yes self ↦
        let rest = relax_from-Rounds left (lo + 1) t c offers has (omega arith) (omega arith) in
        record {
          table = rest.table;
          changes = rest.changes;
          returns = rw (relax_dest_self lo (t, c) self) rest.returns;
          rows = λ j. ground (arith, rest.rows j);
          size = rest.size;
        }
    | no other ↦
        let (offered, o) = offers lo (omega arith) (omega arith) in
        let (row, r) = has lo (omega arith) (omega arith) in
        let first = relax_dest-Round lo offered row t c other o r in
        let has' : HasRows first.table = Round-HasRows lo offered row (t, c) _ first has in
        let rest =
          relax_from-Rounds left (lo + 1) first.table first.changes offers has' (omega arith)
            (omega arith) in
        record {
          table = rest.table;
          changes = rest.changes;
          returns = rw first.returns rest.returns;
          rows =
              λ j. rows-suc lo left j offered row (t, c) _ rest.table other o r first (rest.rows j);
          size = rest.size ∙ first.size;
        }
  ]
