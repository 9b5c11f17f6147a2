-- ===== src/Gate/Intent/Unresolved.antt =====
-- A deletion after an intent in conflict: `intent_open`, then `preflight`, in one session.
use mcp_assist_memory.Prelude.{
  ℕ, Text, codes, true, false, none, some, List, ◌∷◌, text_eq_refl, find, all, ◌≡◌, refl, sym, ap,
  ◌∙◌, Bool-cases, inl, inr,
}
use mcp_assist_memory.Regex.{is_space}
use mcp_assist_memory.Errors.{Code, AppError, app_error}
use mcp_assist_memory.Result.{ok}
use mcp_assist_memory.Store.Search.{Ranking}
use mcp_assist_memory.Gate.State.{GateState, Intent, gate_conflict, load_intent, profile_on}
use mcp_assist_memory.Gate.Preflight.{
  Surroundings, Call, blocked, gate_fingerprint, is_destructive, is_override, session_of, preflight,
  event_step, intent_steps,
}
use mcp_assist_memory.Gate.Refs.{
  Scan, consistent, contradicts, attribute_error, structured_conflict,
}
use mcp_assist_memory.Gate.Skills.{Hearing}
use mcp_assist_memory.Gate.Intent.Candidates.{Match, matched_with, trigger_scan_raises}
use mcp_assist_memory.Gate.Intent.Open.{
  Declared, Critic, Opened, Opening, opens, refuses, crashes, registered, decided, hearing_of,
  is_clinical, clarified, intent_open,
}

module _ (ranking : Ranking) (critic : Critic ranking) where
  open ranking use {Score}

  decided-registered :
      (h : Hearing) (d : Declared) (ms : List (Match Score)) (scan : Scan) (st : GateState)
      (o : Opened ranking critic)
      → (decided ranking critic h d ms scan st).1 ≡ opens o
      → (decided ranking critic h d ms scan st).0.intents
        ≡ registered ranking critic d o ∷ st.intents
  decided-registered h d ms attribute_error st o e = absurd (cc)
  decided-registered h d ms (contradicts c) st o e =
      ap (λ x. registered ranking critic d x ∷ st.intents) (opens-injective e)
    where
      opens-injective :
          {a b : Opened ranking critic}
          → ◌≡◌ {A = Opening ranking critic} (opens a) (opens b)
          → a ≡ b
      opens-injective e = cc
  decided-registered h d ms consistent st o e =
      ap (λ x. registered ranking critic d x ∷ st.intents) (opens-injective e)
    where
      opens-injective :
          {a b : Opened ranking critic}
          → ◌≡◌ {A = Opening ranking critic} (opens a) (opens b)
          → a ≡ b
      opens-injective e = cc

  refused-ne :
      (a : AppError) (o : Opened ranking critic)
      → ◌≡◌ {A = Opening ranking critic} (refuses a) (opens o)
      → ⊥
  refused-ne a o e = cc

  crashed-ne : (o : Opened ranking critic) → ◌≡◌ {A = Opening ranking critic} crashes (opens o) → ⊥
  crashed-ne o e = cc

  -- An intent that is opened is the newest of its namespace and session.
  intent_open-registered :
      (now : ℕ) (d : Declared) (st : GateState) (o : Opened ranking critic)
      → (intent_open ranking critic now d st).1 ≡ opens o
      → (intent_open ranking critic now d st).0.intents ≡ registered ranking critic d o ∷ st.intents
  unfolding intent_open
  intent_open-registered now d st o e = elim (Bool-cases (all is_space d.goal)) [
    | inl b ↦ absurd (
        refused-ne (app_error Code.gate_blocked none none (some "empty_intent")) o
          (sym (rw (b)) ∙ e))
    | inr b ↦
        elim (Bool-cases (
          trigger_scan_raises ranking critic.retriever now d.namespace d.goal d.include_quarantined
            st.memory)) [
              | inl f ↦ absurd (crashed-ne o (sym (rw (b, f)) ∙ e))
              | inr f ↦
                  rw (b, f)
                    (decided-registered (hearing_of ranking critic now d) d
                      (matched_with ranking critic.retriever now d.namespace d.goal
                        (is_clinical ranking critic d) d.include_quarantined st.memory)
                      (structured_conflict critic.finders critic.retriever.engine.order now
                        d.namespace d.goal st.memory)
                      st o (sym (rw (b, f)) ∙ e))
            ]
  ]

load_intent-newest :
    (ns : Text) (c : ℕ) (s : Text) (i : Intent) (is : List Intent) (st : GateState)
    → st.intents ≡ i ∷ is
    → i.namespace ≡ ns
    → i.session_id ≡ c ∷ s
    → load_intent ns (some (c ∷ s)) st ≡ some i
unfolding load_intent find
load_intent-newest ns c s i is st e n m = rw (e, n, m, text_eq_refl ns, text_eq_refl (c ∷ s)) refl

-- A destructive call without a token, an event or an override stops where the intent of its session
-- is in conflict and no reasoner is switched on.
preflight-unresolved :
    (w : Surroundings) (q : Call) (st : GateState) (fingerprint : Text) (i : Intent)
    → gate_fingerprint w.services q ≡ ok fingerprint
    → q.confirm_token ≡ none
    → q.event_id ≡ none
    → is_override q ≡ false
    → is_destructive q ≡ true
    → profile_on (codes "tier2") q.profile ≡ false
    → load_intent q.namespace (session_of q.meta) st ≡ some i
    → i.decision ≡ gate_conflict
    → (preflight w q st).1 ≡ blocked "unresolved_conflict_destructive"
unfolding preflight event_step intent_steps is_override app_error is_destructive
preflight-unresolved w q st fingerprint i f t e o d p l g = rw (f, t, e, l, o, d, g, p) refl

-- After `intent_open` answers with a conflict, a destructive call of the same namespace and session
-- (without a confirmation token, an event id or an override, and with the reasoning tier off) is
-- refused as `unresolved_conflict_destructive`.
pub intent_open-preflight :
    (ranking : Ranking) (critic : Critic ranking) (now : ℕ) (d : Declared) (st : GateState)
    (o : Opened ranking critic) (w : Surroundings) (q : Call) (c : ℕ) (s fingerprint : Text)
    → (intent_open ranking critic now d st).1 ≡ opens o
    → o.decision ≡ gate_conflict
    → d.session_id ≡ some (c ∷ s)
    → session_of q.meta ≡ some (c ∷ s)
    → q.namespace ≡ d.namespace
    → gate_fingerprint w.services q ≡ ok fingerprint
    → q.confirm_token ≡ none
    → q.event_id ≡ none
    → is_override q ≡ false
    → is_destructive q ≡ true
    → profile_on (codes "tier2") q.profile ≡ false
    → (preflight w q (intent_open ranking critic now d st).0).1
      ≡ blocked "unresolved_conflict_destructive"
intent_open-preflight ranking critic now d st o w q c s fingerprint e g m k n f t v r x p =
    let st2 = (intent_open ranking critic now d st).0 in
    let i = registered ranking critic d o in
    let l : load_intent d.namespace (some (c ∷ s)) st2 ≡ some i =
      load_intent-newest d.namespace c s i st.intents st2
        (intent_open-registered ranking critic now d st o e) refl (ap clarified m) in
    let l2 : load_intent q.namespace (session_of q.meta) st2 ≡ some i =
      ap (λ ns. load_intent ns (session_of q.meta) st2) n
      ∙ ap (λ z. load_intent d.namespace z st2) k
      ∙ l in
    preflight-unresolved w q st2 fingerprint i f t v r x p l2 g
