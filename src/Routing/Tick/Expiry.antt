-- ===== src/Routing/Tick/Expiry.antt =====
-- What the loop of `tick` over the rows does to the row of another node.
use networking_project_chat.Prelude.{
  ℕ, zero, suc, ◌+◌, ◌-◌, ◌≤◌, some, Bool, true, false, ◌&&◌, ◌==◌, ltb, leb, ◌≡◌, refl, ap, sym,
  ◌∙◌, inl, inr, arith, if◌then◌else◌, Bool-cases,
}
use networking_project_chat.Routing.Route.{Route}
use networking_project_chat.Routing.State.{Node}
use networking_project_chat.Routing.Tick.{expire_from}
use networking_project_chat.Routing.Tick.Ageing.{is_active, aged, Aged, expire_row-Aged}
use networking_project_chat.Routing.Echo.Relax.{HasRows}

-- The rounds from `i` on.
abbrev pub in_rounds : ℕ → ℕ → ℕ → Bool
in_rounds left i k = leb i k && ltb k (i + left)

-- A row is looked at once.
looked_at :
    (left i k : ℕ)
    → (i == k) ≡ true
    → (in_rounds left (i + 1) k ≡ false) × (in_rounds (suc left) i k ≡ true)
looked_at left i k same = (ground (arith, same), ground (arith, same))

looked_at_later :
    (left i k : ℕ) → (i == k) ≡ false → in_rounds left (i + 1) k ≡ in_rounds (suc left) i k
looked_at_later left i k apart = ground (arith, apart)

aged_once :
    (left i k : ℕ) (r : Route)
    → (if in_rounds left (i + 1) k
        then aged (if i == k then aged r else r)
        else if i == k
        then aged r
        else r)
      ≡ (if in_rounds (suc left) i k then aged r else r)
aged_once left i k r = elim (Bool-cases (i == k)) [
  | inl same ↦
      let (past, now) = looked_at left i k same in
      ap (λ b. if b then aged (if i == k then aged r else r) else (if i == k then aged r else r))
        past
      ∙ ap (λ b. if b then aged r else r) same
      ∙ sym (ap (λ b. if b then aged r else r) now)
  | inr apart ↦
      ap
        (λ b.
          if in_rounds left (i + 1) k
          then aged (if b then aged r else r)
          else (if b then aged r else r))
        apart
      ∙ ap (λ b. if b then aged r else r) (looked_at_later left i k apart)
]

lapsed_once :
    (left i k : ℕ) (r : Route) (active : Bool)
    → (if in_rounds left (i + 1) k && (if i == k then aged r else r).ttl - 1 == 0
        then false
        else if i == k && r.ttl - 1 == 0
        then false
        else active)
      ≡ (if in_rounds (suc left) i k && r.ttl - 1 == 0 then false else active)
lapsed_once left i k r active = elim (Bool-cases (i == k)) [
  | inl same ↦
      let (past, now) = looked_at left i k same in
      ap
        (λ b.
          if b && (if i == k then aged r else r).ttl - 1 == 0
          then false
          else if i == k && r.ttl - 1 == 0
          then false
          else active)
        past
      ∙ ap (λ b. if b && r.ttl - 1 == 0 then false else active) same
      ∙ sym (ap (λ b. if b && r.ttl - 1 == 0 then false else active) now)
  | inr apart ↦
      ap
        (λ b.
          if in_rounds left (i + 1) k && (if b then aged r else r).ttl - 1 == 0
          then false
          else if b && r.ttl - 1 == 0
          then false
          else active)
        apart
      ∙ ap (λ b. if b && r.ttl - 1 == 0 then false else active) (looked_at_later left i k apart)
]

pub expire_from-Aged :
    (me left i : ℕ) (n : Node)
    → 1 ≤ i
    → i + left ≤ 5
    → n.addressing.addr_file ≡ some me
    → HasRows n.routing_table
    → Aged me (in_rounds left i) n (expire_from left i false n)
unfolding expire_from
expire_from-Aged me zero i n p q file has = record {
  after = n;
  returns = refl;
  address = file;
  pause = refl;
  rows = has;
  row = λ k r other e. ground (arith, e);
  neighbour = λ k r other e. ground arith;
}
expire_from-Aged me (suc left) i n p q file has =
    let one = expire_row-Aged me i n p (omega arith) file has in
    let rest =
      expire_from-Aged me left (i + 1) one.after (omega arith) (omega arith) one.address one.rows in
    record {
      after = rest.after;
      returns = rw one.returns rest.returns;
      address = rest.address;
      pause = rest.pause ∙ one.pause;
      rows = rest.rows;
      row = λ k r other e.
          rest.row k (if i == k then aged r else r) other (one.row k r other e)
          ∙ ap some (aged_once left i k r);
      neighbour = λ k r other e.
          rest.neighbour k (if i == k then aged r else r) other (one.row k r other e)
          ∙ ap
              (λ b.
                if in_rounds left (i + 1) k && (if i == k then aged r else r).ttl - 1 == 0
                then false
                else b)
              (one.neighbour k r other e)
          ∙ lapsed_once left i k r (is_active k n);
    }
