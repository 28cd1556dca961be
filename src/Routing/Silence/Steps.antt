-- ===== src/Routing/Silence/Steps.antt =====
-- What each event does to the row of a neighbour that is not heard from, and to the rows through it.
use mathlib.Core.Logic.{⊎_elim}
use networking_project_chat.Prelude.{
  ℕ, ◌-◌, ◌≤◌, List, Option, some, Bool, true, false, ◌==◌, ◌≡◌, refl, ap, sym, ◌∙◌, ◌⊎◌, inl, inr,
  arith, Bool-cases, if◌then◌else◌,
}
use networking_project_chat.Prelude.Assoc.{find}
use networking_project_chat.Routing.Route.{Route}
use networking_project_chat.Routing.State.{
  Node, pause_protocol, resume_protocol, resume_protocol_to,
}
use networking_project_chat.Routing.Tick.{count_down, start_up, tick}
use networking_project_chat.Routing.Tick.Ageing.{aged}
use networking_project_chat.Routing.Tick.Inactive.{unreachable}
use networking_project_chat.Routing.Tick.Second.{Second, tick-Second}
use networking_project_chat.Routing.Echo.Relax.{replaces, relaxed}
use networking_project_chat.Routing.Echo.KeepsOthers.{entered}
use networking_project_chat.Routing.Echo.Neighbour.{start_row, register_echo-Outcome}
use networking_project_chat.Routing.Run.{Event, hears, ticks, pauses, wakes, step}
use networking_project_chat.Routing.Silence.{
  pause_after, awake_second, IsSilent, IsSetUp, Avoids, Lives,
}

relaxed_hop :
    (src h j : ℕ) (offered row : Route)
    → (src == h) ≡ false
    → (row.next_hop == h) ≡ false
    → ((relaxed src offered (start_row src j row)).next_hop == h) ≡ false
unfolding relaxed replaces entered
relaxed_hop src h j offered row e e' = ground (arith, e, e')

relaxed_near :
    (src h : ℕ) (offered row : Route)
    → (src == h) ≡ false
    → offered.cost ≤ 5
    → row.cost ≤ 1
    → 1 ≤ row.ttl
    → relaxed src offered (start_row src h row) ≡ row
unfolding relaxed replaces entered
relaxed_near src h offered row e p q alive = ground (arith, e, p, q, alive)

tick_paused :
    (fuel : ℕ) (rand : ℕ → ℕ) (n : Node)
    → n.pause_flag ≡ true
    → tick fuel rand false n ≡ some (false, count_down false n)
unfolding tick start_up
tick_paused fuel rand n paused = ground (arith, paused)

module _ (fuel : ℕ) (rand : ℕ → ℕ) (me h : ℕ) (me_range : (1 ≤ me) × (me ≤ 4))
    (h_range : (1 ≤ h) × (h ≤ 4)) (h_other : (me == h) ≡ false) where
  abbrev pub State : ℕ → Node → Type 0
  State left n = Avoids me h n ⊎ Lives h left n

  pub weaken : (left left' : ℕ) (n : Node) → left ≤ left' → State left n → State left' n
  weaken left left' n more (inl a) = inl a
  weaken left left' n more (inr (r, found, hop, near, alive, soon)) =
      inr (r, found, hop, near, alive, omega (arith, more, soon))

  -- What an event leads to.
  pub record Stepped (e : Event) (n : Node) (out : Option Node) : Type 0 where
    pub after : Node
    pub returns : out ≡ some after
    pub set_up : IsSetUp me after
    pub pause : after.pause_flag ≡ pause_after e n.pause_flag
    pub leads : (left : ℕ) → State left n → State (left - awake_second e n.pause_flag) after

  hears-Stepped :
      (packet : List ℕ) (n : Node)
      → IsSilent me h (hears packet)
      → IsSetUp me n
      → Stepped (hears packet) n (step fuel rand (hears packet) n)
  unfolding step
  hears-Stepped packet n (e, silent) v =
      let src = e.header.source_address in
      let out =
        register_echo-Outcome fuel rand packet n me e.header e.recv v.address me_range v.rows e.read
          e.parsed e.rows e.from_four e.other in
      let avoids : Avoids me h n → Avoids me h out.after = λ a j range other.
        let (r, found, hop) = a j range other in
        let (offered, o) = e.rows j range.0 range.1 in
        (
          relaxed src offered (start_row src j r),
          out.row j offered r range other o found,
          relaxed_hop src h j offered r silent hop,
        ) in
      let lives : (left : ℕ) → Lives h left n → Lives h left out.after =
        λ left (r, found, hop, near, alive, soon).
          let (offered, o) = e.rows h h_range.0 h_range.1 in
          (
            r,
            out.row h offered r h_range h_other o found
                ∙ ap some
                    (relaxed_near src h offered r silent (e.costs h offered h_range o) near alive),
            hop,
            near,
            alive,
            soon,
          ) in
      record {
        after = out.after;
        returns = out.returns;
        set_up = record { address = out.address; rows = out.rows };
        pause = out.pause;
        leads = λ left s.
            weaken left (left - 0) out.after (omega arith)
              (⊎_elim (λ a. inl (avoids a)) (λ l. inr (lives left l)) s);
      }

  aged-Avoids :
      (n : Node) {out : Option (Bool × Node)}
      → Avoids me h n
      → (s : Second me n out) → Avoids me h s.after
  aged-Avoids n a s j range other =
      let (r, found, hop) = a j range other in
      (
        if s.lost r.next_hop then unreachable (aged r) else aged r,
        s.row j r range other found,
        elim (Bool-cases (s.lost r.next_hop)) [
          | inl lost ↦ rw lost (ground (arith, h_range))
          | inr kept ↦ rw kept hop
        ],
      )

  -- When the neighbour is lost, so is each way through it.
  lost-Avoids :
      (n : Node) {out : Option (Bool × Node)}
      → IsSetUp me n
      → (s : Second me n out) → s.lost h ≡ true
      → Avoids me h s.after
  lost-Avoids n v s lost j range other =
      let (r, found) = v.rows j range.0 range.1 in
      (
        if s.lost r.next_hop then unreachable (aged r) else aged r,
        s.row j r range other found,
        elim (Bool-cases (r.next_hop == h)) [
          | inl through ↦
              let same : r.next_hop ≡ h = ground (arith, through) in
              rw (same, lost) (ground (arith, h_range))
          | inr beside ↦ elim (Bool-cases (s.lost r.next_hop)) [
            | inl gone ↦ rw gone (ground (arith, h_range))
            | inr kept ↦ rw kept beside
          ]
        ],
      )

  one_less :
      (left : ℕ) (n : Node) {out : Option (Bool × Node)}
      → IsSetUp me n
      → (s : Second me n out) → Lives h left n
      → State (left - 1) s.after
  one_less left n v s (r, found, hop, near, alive, soon) = elim (Bool-cases (s.lost h)) [
    | inl lost ↦ inl (lost-Avoids n v s lost)
    | inr kept ↦
        let lives : ¬ (r.ttl ≤ 1) = λ old.
          let now = s.silent h r h_range h_other found hop old in ground (arith, kept, now) in
        inr (
          aged r,
          s.row h r h_range h_other found ∙ rw (hop, kept) refl,
          hop,
          near,
          omega (arith, lives),
          omega (arith, lives, soon),
        )
  ]

  awake-Stepped :
      (n : Node) → IsSetUp me n → n.pause_flag ≡ false → Stepped ticks n (step fuel rand ticks n)
  unfolding step
  awake-Stepped n v awake =
      let s =
        tick-Second fuel rand me n (record { address = v.address; awake = awake; rows = v.rows }) in
      record {
        after = s.after;
        returns = rw s.returns refl;
        set_up = record { address = s.awake.address; rows = s.awake.rows };
        pause = s.awake.awake ∙ sym awake;
        leads = λ left st.
            rw awake (⊎_elim (λ a. inl (aged-Avoids n a s)) (λ l. one_less left n v s l) st);
      }

  still-Stepped :
      (e : Event) (n o : Node)
      → step fuel rand e n ≡ some o
      → o.routing_table ≡ n.routing_table
      → o.addressing ≡ n.addressing
      → awake_second e n.pause_flag ≡ 0
      → o.pause_flag ≡ pause_after e n.pause_flag
      → IsSetUp me n
      → Stepped e n (step fuel rand e n)
  still-Stepped e n o returns table address none_passes same_pause v = record {
    after = o;
    returns = returns;
    set_up = record { address = rw address v.address; rows = rw table v.rows };
    pause = same_pause;
    leads = λ left s.
        weaken left (left - awake_second e n.pause_flag) o (omega (arith, none_passes)) (
          ⊎_elim
            (λ a. inl (λ j range other.
              let (r, found, hop) = a j range other in (r, ap (find j) table ∙ found, hop)))
            (λ l.
              let (r, found, hop, near, alive, soon) = l in
              inr (r, ap (find h) table ∙ found, hop, near, alive, soon))
            s);
  }

  pub step-Stepped :
      (e : Event) (n : Node) → IsSilent me h e → IsSetUp me n → Stepped e n (step fuel rand e n)
  step-Stepped (hears packet) n silent v = hears-Stepped packet n silent v
  step-Stepped ticks n silent v = elim (Bool-cases n.pause_flag) [
    | inl paused ↦
        still-Stepped ticks n (count_down false n)
          (unfold step in rw (tick_paused fuel rand n paused) refl) (unfold count_down in refl)
          (unfold count_down in refl) (ground (arith, paused)) (unfold count_down in refl) v
    | inr awake ↦ awake-Stepped n v awake
  ]
  step-Stepped pauses n silent v =
      still-Stepped pauses n (pause_protocol n) (unfold step in refl)
        (unfold pause_protocol in refl) (unfold pause_protocol in refl) refl
        (unfold pause_protocol in refl) v
  step-Stepped wakes n silent v =
      still-Stepped wakes n (resume_protocol_to n) (unfold step in refl)
        (unfold resume_protocol_to resume_protocol in refl)
        (unfold resume_protocol_to resume_protocol in refl) refl
        (unfold resume_protocol_to resume_protocol in refl) v
