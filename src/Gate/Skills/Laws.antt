-- ===== src/Gate/Skills/Laws.antt =====
-- When a skill that `skill_define` stores turns an intent into a conflict.
use mcp_assist_memory.Prelude.{
  Text, codes, Bool, true, false, not, Option, none, some, ◌&&◌, ◌||◌, text_eq, mem_text, take,
  is_some, if◌then◌else◌, ◌≡◌, refl, ap, ◌∙◌, Bool-cases, inl, inr,
}
use mcp_assist_memory.Json.{
  Json, null, bool, int, float, str, arr, obj, Fields, get, get_field, set_field, drop_field,
  present, opt_truthy, truthy,
}
use mcp_assist_memory.Json.Lookup.{
  get-set_same, get-set_other, get_field-set_same, get_field-drop_same, get_field-drop_other,
}
use mcp_assist_memory.Triggers.{validate_trigger}
use mcp_assist_memory.Gate.Skills.{
  Hearing, SkillArgs, skill_expired, has_valid_trigger, predicate_of, is_true, is_text, is_eligible,
  escalates, named_authors, text_or_else, or_null, put_given, put_default, base_meta, with_trigger,
  without_trigger, skill_meta,
}

-- the keys that the lemmas read and the keys that are set beside them
abbrev trigger_key : Text
trigger_key = codes "trigger"

get-drop_same : (k : Text) (fs : Fields) → get k (drop_field k fs) ≡ none
unfolding get
get-drop_same k fs = rw (get_field-drop_same k fs)

get-drop_other :
    (k j : Text) (fs : Fields) → text_eq j k ≡ false → get k (drop_field j fs) ≡ get k fs
unfolding get
get-drop_other k j fs e = rw (get_field-drop_other k j fs e)

get-put_given :
    (k j : Text) (o : Option Text) (fs : Fields)
    → text_eq j k ≡ false
    → get k (put_given j o fs) ≡ get k fs
get-put_given k j none fs e = refl
get-put_given k j (some s) fs e = get-set_other k j (str s) fs e

get-put_default :
    (k j : Text) (v : Json) (fs : Fields)
    → text_eq j k ≡ false
    → get k (put_default j v fs) ≡ get k fs
get-put_default k j v fs e = elim (Bool-cases (is_some (get_field j fs))) [
  | inl h ↦ rw h
  | inr h ↦ rw h (get-set_other k j v fs e)
]

get-set_if :
    (b : Bool) (k j : Text) (v : Json) (fs : Fields)
    → text_eq j k ≡ false
    → get k (if b then set_field j v fs else fs) ≡ get k fs
get-set_if true k j v fs e = get-set_other k j v fs e
get-set_if false k j v fs e = refl

get-set_if_same :
    (b : Bool) (k s : Text) (fs : Fields)
    → get k (if b then set_field k (str s) fs else fs) ≡ (if b then some (str s) else get k fs)
get-set_if_same true k s fs = get-set_same k s fs
get-set_if_same false k s fs = refl

-- a value that is read as present
get-set_value : (k : Text) (v : Json) (fs : Fields) → get k (set_field k v fs) ≡ present (some v)
unfolding get
get-set_value k v fs = rw (get_field-set_same k v fs)

provenance_if :
    (b : Bool) (k : Text) (fs : Fields)
    → opt_truthy (get k (if b then set_field k (bool true) fs else fs))
      ≡ (b || opt_truthy (get k fs))
provenance_if true k fs = ap opt_truthy (get-set_value k (bool true) fs) ∙ (unfold truthy in refl)
provenance_if false k fs = refl

valid-present :
    (trigger : Json)
    → has_valid_trigger (some trigger) ≡ true
    → present (some trigger) ≡ some trigger
unfolding has_valid_trigger validate_trigger
valid-present null h = cc
valid-present (bool b) h = refl
valid-present (int i n) h = refl
valid-present (float b) h = refl
valid-present (str s) h = refl
valid-present (arr vs) h = refl
valid-present (obj fs) h = refl

module _ (now_text : Text) (q : SkillArgs) (old : Fields) where
  abbrev is_named : Bool
  is_named = mem_text q.trigger_author named_authors

  -- the meta under a key that `base_meta` does not set
  base_meta-other :
      (k : Text)
      → text_eq (codes "polarity") k ≡ false
      → text_eq (codes "trigger_intent") k ≡ false
      → text_eq (codes "last_validated") k ≡ false
      → get k (base_meta now_text q old) ≡ get k old
  unfolding base_meta
  base_meta-other k a b c =
      get-set_if is_named k (codes "last_validated") (str (text_or_else q.calibration_ts now_text))
        _ c
      ∙ get-put_default k (codes "trigger_intent") (str (take 200 q.guidance)) _ b
      ∙ get-put_given k (codes "trigger_intent") q.trigger_intent _ b
      ∙ get-set_other k (codes "polarity") (str q.polarity) old a

  base_meta-polarity : get (codes "polarity") (base_meta now_text q old) ≡ some (str q.polarity)
  unfolding base_meta text_eq
  base_meta-polarity =
      get-set_if is_named (codes "polarity") (codes "last_validated")
        (str (text_or_else q.calibration_ts now_text)) _ refl
      ∙ get-put_default (codes "polarity") (codes "trigger_intent") (str (take 200 q.guidance)) _
          refl
      ∙ get-put_given (codes "polarity") (codes "trigger_intent") q.trigger_intent _ refl
      ∙ get-set_same (codes "polarity") q.polarity old

  -- when the skill was last validated
  abbrev pub validated : Option Json
  validated =
      if is_named
      then some (str (text_or_else q.calibration_ts now_text))
      else get (codes "last_validated") old

  base_meta-validated : get (codes "last_validated") (base_meta now_text q old) ≡ validated
  unfolding base_meta text_eq
  base_meta-validated =
      get-set_if_same is_named (codes "last_validated") (text_or_else q.calibration_ts now_text) _
      ∙ ap (λ x. if is_named then some (str (text_or_else q.calibration_ts now_text)) else x)
          (get-put_default (codes "last_validated") (codes "trigger_intent")
              (str (take 200 q.guidance)) _ refl
            ∙ get-put_given (codes "last_validated") (codes "trigger_intent") q.trigger_intent _
                refl
            ∙ get-set_other (codes "last_validated") (codes "polarity") (str q.polarity) old refl)

  module _ (trigger : Json) (meta : Fields) where
    -- the meta under a key that the trigger's fields do not have
    with_trigger-other :
        (k : Text)
        → text_eq (codes "trigger") k ≡ false
        → text_eq (codes "trigger_author") k ≡ false
        → text_eq (codes "trigger_temporal_mode") k ≡ false
        → text_eq (codes "trigger_calibration_ts") k ≡ false
        → text_eq (codes "curator_provenance") k ≡ false
        → get k (with_trigger q trigger meta) ≡ get k meta
    unfolding with_trigger
    with_trigger-other k a b c d e =
        get-set_if is_named k (codes "curator_provenance") (bool true) _ e
        ∙ get-set_other k (codes "trigger_calibration_ts") (or_null q.calibration_ts) _ d
        ∙ get-set_other k (codes "trigger_temporal_mode")
            (str (text_or_else q.temporal_mode (codes "historical_snapshot"))) _ c
        ∙ get-set_other k (codes "trigger_author") (str q.trigger_author) _ b
        ∙ get-set_other k (codes "trigger") trigger meta a

    with_trigger-provenance :
        opt_truthy (get (codes "curator_provenance") (with_trigger q trigger meta))
        ≡ (is_named || opt_truthy (get (codes "curator_provenance") meta))
    unfolding with_trigger text_eq
    with_trigger-provenance =
        provenance_if is_named (codes "curator_provenance") _
        ∙ ap (λ x. is_named || opt_truthy x)
            (get-set_other (codes "curator_provenance") (codes "trigger_calibration_ts")
                (or_null q.calibration_ts) _ refl
              ∙ get-set_other (codes "curator_provenance") (codes "trigger_temporal_mode")
                  (str (text_or_else q.temporal_mode (codes "historical_snapshot"))) _ refl
              ∙ get-set_other (codes "curator_provenance") (codes "trigger_author")
                  (str q.trigger_author) _ refl
              ∙ get-set_other (codes "curator_provenance") (codes "trigger") trigger meta refl)

    with_trigger-trigger :
        get (codes "trigger") (with_trigger q trigger meta) ≡ present (some trigger)
    unfolding with_trigger text_eq
    with_trigger-trigger =
        get-set_if is_named (codes "trigger") (codes "curator_provenance") (bool true) _ refl
        ∙ get-set_other (codes "trigger") (codes "trigger_calibration_ts")
            (or_null q.calibration_ts) _ refl
        ∙ get-set_other (codes "trigger") (codes "trigger_temporal_mode")
            (str (text_or_else q.temporal_mode (codes "historical_snapshot"))) _ refl
        ∙ get-set_other (codes "trigger") (codes "trigger_author") (str q.trigger_author) _ refl
        ∙ get-set_value (codes "trigger") trigger meta

  without_trigger-trigger : (meta : Fields) → get (codes "trigger") (without_trigger meta) ≡ none
  unfolding text_eq
  without_trigger-trigger meta =
      get-drop_other (codes "trigger") (codes "trigger_author") (drop_field (codes "trigger") meta)
        refl
      ∙ get-drop_same (codes "trigger") meta

  -- without a trigger a skill does not escalate
  escalates-without :
      (h : Hearing) (meta : Fields) (quarantined : Bool)
      → get (codes "trigger") meta ≡ none
      → escalates h meta quarantined ≡ false
  unfolding escalates predicate_of
  escalates-without h meta quarantined e = rw e (and_false (is_eligible h meta quarantined))
    where
      and_false : (b : Bool) → (b && false) ≡ false
      and_false true = refl
      and_false false = refl

  skill_meta-none :
      q.trigger ≡ none → skill_meta now_text q old ≡ without_trigger (base_meta now_text q old)
  unfolding skill_meta
  skill_meta-none e = rw (e, skill_meta)

  skill_meta-bad :
      (trigger : Json)
      → q.trigger ≡ some trigger
      → has_valid_trigger (some trigger) ≡ false
      → skill_meta now_text q old ≡ without_trigger (base_meta now_text q old)
  unfolding skill_meta
  skill_meta-bad trigger e f = rw (e, skill_meta, f)

  skill_meta-good :
      (trigger : Json)
      → q.trigger ≡ some trigger
      → has_valid_trigger (some trigger) ≡ true
      → skill_meta now_text q old ≡ with_trigger q trigger (base_meta now_text q old)
  unfolding skill_meta
  skill_meta-good trigger e f = rw (e, skill_meta, f)

  -- the test on what is read of the meta
  abbrev verdict_on : Hearing → Bool → Option Json → Bool → Option Json → Option Json → Bool
  verdict_on h quarantined polarity provenanced at trigger =
      (is_text (codes "anti-pattern") polarity
        && (provenanced && (not (skill_expired h at) && not quarantined)))
      && is_true (predicate_of h trigger)

  escalates-verdict_on :
      (h : Hearing) (meta : Fields) (quarantined : Bool)
      → escalates h meta quarantined
        ≡ verdict_on h quarantined
            (get (codes "polarity") meta)
            (opt_truthy (get (codes "curator_provenance") meta))
            (get (codes "last_validated") meta)
            (get (codes "trigger") meta)
  unfolding escalates
  escalates-verdict_on h meta quarantined = refl

  escalates-with :
      (h : Hearing) (trigger : Json) (quarantined : Bool)
      → has_valid_trigger (some trigger) ≡ true
      → escalates h (with_trigger q trigger (base_meta now_text q old)) quarantined
        ≡ verdict_on h quarantined
            (some (str q.polarity))
            (is_named || opt_truthy (get (codes "curator_provenance") old))
            validated
            (some trigger)
  unfolding text_eq
  escalates-with h trigger quarantined f =
      let base = base_meta now_text q old in
      let g1 =
        with_trigger-other trigger base (codes "polarity") refl refl refl refl refl
        ∙ base_meta-polarity in
      let g2 =
        with_trigger-provenance trigger base
        ∙ ap (λ x. is_named || opt_truthy x)
            (base_meta-other (codes "curator_provenance") refl refl refl) in
      let g3 =
        with_trigger-other trigger base (codes "last_validated") refl refl refl refl refl
        ∙ base_meta-validated in
      let g4 = with_trigger-trigger trigger base ∙ valid-present trigger f in
      escalates-verdict_on h (with_trigger q trigger base) quarantined
      ∙ ap
          (λ x.
            verdict_on h quarantined x
              (opt_truthy (get (codes "curator_provenance") (with_trigger q trigger base)))
              (get (codes "last_validated") (with_trigger q trigger base))
              (get (codes "trigger") (with_trigger q trigger base)))
          g1
      ∙ ap
          (λ x.
            verdict_on h quarantined (some (str q.polarity)) x
              (get (codes "last_validated") (with_trigger q trigger base))
              (get (codes "trigger") (with_trigger q trigger base)))
          g2
      ∙ ap
          (λ x.
            verdict_on h quarantined (some (str q.polarity))
              (is_named || opt_truthy (get (codes "curator_provenance") old)) x
              (get (codes "trigger") (with_trigger q trigger base)))
          g3
      ∙ ap
          (λ x.
            verdict_on h quarantined (some (str q.polarity))
              (is_named || opt_truthy (get (codes "curator_provenance") old)) validated x)
          g4

  -- A skill that was just defined turns an intent into a conflict exactly when its trigger passes the
  -- validator and holds of the intent, its polarity is anti-pattern, it is in its validity window and
  -- not quarantined, and either its author is named or an earlier revision had the provenance of a
  -- curator: an author who is not named inherits it.
  pub skill_meta-escalates :
      (h : Hearing) (quarantined : Bool)
      → escalates h (skill_meta now_text q old) quarantined ≡ (
          has_valid_trigger q.trigger
          && ((text_eq q.polarity (codes "anti-pattern")
                && ((is_named || opt_truthy (get (codes "curator_provenance") old))
                    && (not (skill_expired h validated) && not quarantined)))
              && is_true (predicate_of h q.trigger)))
  skill_meta-escalates h quarantined = go q.trigger refl
    where
      go :
          (o : Option Json)
          → q.trigger ≡ o
          → escalates h (skill_meta now_text q old) quarantined ≡ (
              has_valid_trigger o
              && ((text_eq q.polarity (codes "anti-pattern")
                    && ((is_named || opt_truthy (get (codes "curator_provenance") old))
                        && (not (skill_expired h validated) && not quarantined)))
                  && is_true (predicate_of h o)))
      go none e =
          ap (λ m. escalates h m quarantined) (skill_meta-none e)
          ∙ escalates-without h (without_trigger (base_meta now_text q old)) quarantined
              (without_trigger-trigger (base_meta now_text q old))
          ∙ (unfold has_valid_trigger in refl)
      go (some trigger) e = elim (Bool-cases (has_valid_trigger (some trigger))) [
        | inl f ↦
            ap (λ m. escalates h m quarantined) (skill_meta-good trigger e f)
            ∙ escalates-with h trigger quarantined f
            ∙ (rw f)
        | inr f ↦
            ap (λ m. escalates h m quarantined) (skill_meta-bad trigger e f)
            ∙ escalates-without h (without_trigger (base_meta now_text q old)) quarantined
                (without_trigger-trigger (base_meta now_text q old))
            ∙ (rw f)
      ]
