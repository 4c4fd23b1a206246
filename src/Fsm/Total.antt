-- ===== src/Fsm/Total.antt =====
-- `state_transition` of src/fsm/fsm.c as a whole: the loop over its rounds.
use dnsconfd.Prelude.{
  ℕ, zero, suc, ◌≤◌, ◌<◌, ◌≡◌, refl, sym, subst, ◌∙◌, true, false, arith, Bool-cases, inl, inr,
}
use dnsconfd.Server.Sorting.{SortLaws}
use dnsconfd.Env.{Env}
use dnsconfd.Context.{
  Context, State, starting, configuring_dns_manager, setting_resolv_conf, Event, nothing,
}
use dnsconfd.Fsm.Transition.{
  dispatch, Ending, slept, rejected, state_loop, state_transition, is_nothing, rounds_enough,
}
use dnsconfd.Fsm.Invariant.{IsSound, wants_authority, wants_backup}
use dnsconfd.Fsm.Rounds.{handles, sleeps, rank, Leads, dispatch-refused}
use dnsconfd.Fsm.Safety.{round_Leads}

-- The daemon waits in one of its waiting states, and all that the state asks for is there.
pub record IsResting (c : Context) : Type 0 where
  pub sound : IsSound c nothing
  pub waits : sleeps c.current_state ≡ true

-- The call returned 0 and left the daemon waiting.
pub record Settled (r : Ending) : Type 0 where
  pub after : Context
  pub ran : r ≡ slept after
  pub rests : IsResting after

same_authority :
    (s : State) (e f : Event) → sleeps s ≡ true → wants_authority s e ≡ wants_authority s f
same_authority configuring_dns_manager e f z = cc
same_authority _ e f z = refl

same_backup : (s : State) (e f : Event) → sleeps s ≡ true → wants_backup s e ≡ wants_backup s f
same_backup setting_resolv_conf e f z = cc
same_backup _ e f z = refl

-- A daemon that waits is ready for every event.
pub any_event : {c : Context} (e : Event) → IsResting c → IsSound c e
any_event {c} e r = record {
  sane = r.sound.sane;
  table = r.sound.table;
  authority = λ w. r.sound.authority (same_authority c.current_state nothing e r.waits ∙ w);
  backup = λ w. r.sound.backup (same_backup c.current_state nothing e r.waits ∙ w);
}

is_nothing_lem : (e : Event) → is_nothing e ≡ true → nothing ≡ e
is_nothing_lem nothing q = refl
is_nothing_lem _ q = cc

-- What is sound behind a round that ended the loop is at rest.
at_rest :
    {c : Context} {e : Event}
    → is_nothing e ≡ true
    → IsSound c e
    → sleeps c.current_state ≡ true
    → IsResting c
at_rest {c} {e} q i z = record { sound = subst (IsSound c) (sym (is_nothing_lem e q)) i; waits = z }

rank_pos : (s : State) → 0 < rank s
rank_pos starting = omega arith
rank_pos _ = omega arith

rank_enough : (s : State) → rank s ≤ rounds_enough
rank_enough starting = omega arith
rank_enough _ = omega arith

not_pos : {a : ℕ} → 0 < a → a ≤ 0 → ⊥
not_pos h k = omega arith

below : {a b n : ℕ} → a < b → b ≤ suc n → a ≤ n
below h k = omega arith

loop-rejected :
    (n : ℕ) (env : Env) (c : Context) (e : Event)
    → handles c.current_state e ≡ false
    → state_loop (suc n) env c e ≡ rejected c
unfolding state_loop
loop-rejected n env c e h = rw (state_loop, dispatch-refused c.current_state e env c h)

module _ (env : Env) (laws : SortLaws env.sort) where
  loop-Settled :
      (n : ℕ) (c : Context) (e : Event)
      → rank c.current_state ≤ n
      → handles c.current_state e ≡ true
      → IsSound c e
      → Settled (state_loop n env c e)
  unfolding state_loop
  loop-Settled zero c e b h i = absurd (not_pos (rank_pos c.current_state) b)
  loop-Settled (suc n) c e b h i =
      settled (round_Leads env laws c.current_state e c refl h i) (loop-Settled n)
    where
      settled :
          Leads c.current_state (dispatch c.current_state e env c)
          → ((d : Context) (f : Event)
              → rank d.current_state ≤ n
              → handles d.current_state f ≡ true
              → IsSound d f
              → Settled (state_loop n env d f))
          → Settled (state_loop (suc n) env c e)
      settled l rest = elim (Bool-cases (is_nothing l.event)) [
        | inl q ↦ record {
          after = l.after;
          ran = rw (state_loop, l.ran, q);
          rests = at_rest q l.sound (l.ends q);
        }
        | inr q ↦
            let (h', r) = l.goes q in
            let s = rest l.after l.event (below r b) h' l.sound in
            record { after = s.after; ran = rw (state_loop, l.ran, q, s.ran); rests = s.rests }
      ]

  -- From every state in which the daemon waits, an event that the state handles makes the call return
  -- 0 within its rounds, through no NULL pointer, and leaves the daemon waiting with its invariant. The
  -- sort is one for which the documentation of `g_list_sort` holds.
  pub state_transition-Settled :
      (c : Context) (e : Event)
      → IsResting c
      → handles c.current_state e ≡ true
      → Settled (state_transition env c e)
  unfolding state_transition
  state_transition-Settled c e r h =
      loop-Settled rounds_enough c e (rank_enough c.current_state) h (any_event e r)

-- An event that the state does not handle makes the call return -1, with the context as it was.
pub state_transition-rejected :
    (env : Env) (c : Context) (e : Event)
    → handles c.current_state e ≡ false
    → state_transition env c e ≡ rejected c
unfolding state_transition
state_transition-rejected env c e h = loop-rejected 5 env c e h
