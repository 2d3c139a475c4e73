-- ===== src/App/Gc/Removed.antt =====
-- src/app/commands/gc.rs: which runs a collection removes.
use devstack.Common.Outcome.{Result, ok, err, panic, out_of_fuel}
use devstack.Common.BTreeMap.{get, contains_key, remove, keys, get-remove, contains_key_of_get}
use devstack.Stores.Runs.{RunStore}
use devstack.Common.{
  String, ◌≡◌, refl, ap, ◌∙◌, subst, ◌↔◌, ◌⊎◌, inl, inr, Bool, true, false, ◌&&◌, Option, none,
  some, List, [], ◌∷◌, map, arith, if◌then◌else◌, str_key, nat_key, ◌==◌, Bool-cases, Option-cases,
  key_cases, mem,
}
use devstack.Model.Run.{RunLifecycle, same_lifecycle}
use devstack.App.Gc.{
  is_expired, run_expired, GcEnv, expired_entry, gc_each, RunRecord, gc_runs, GcRequest,
  GlobalManifest, gc_answer, gc_from, removed_globals_of, run_gc, GcResponse, gc_threshold,
  run_removed_event, GcOutcome, GcError,
}

mem-keys : (c : String) (m : RunStore) → mem c (keys m) ≡ contains_key c m
mem-keys c [] = refl
mem-keys c ((b, r) ∷ m) = elim (Bool-cases (b == c)) [
  | inl t ↦ rw t refl
  | inr f ↦ rw f (mem-keys c m)
]

none_either : (b : Bool) (o : Option RunRecord) → o ≡ none → (if b then none else o) ≡ none
none_either true o h = refl
none_either false o h = h

and_false : (b : Bool) → (b && false) ≡ false
and_false true = refl
and_false false = refl

module _ {Time : Type 0} (env : GcEnv Time) (threshold : Time) where
  -- Whether the run of an id is there and expired.
  abbrev pub goes : String → RunStore → Bool
  goes c runs = expired_entry env threshold (get c runs)

  gc_each-get :
      (ids : List String) (c : String) (runs : RunStore)
      → (get c (gc_each env threshold ids runs).1
          ≡ (if mem c ids && goes c runs then none else get c runs))
        × (mem c (gc_each env threshold ids runs).0 ≡ (mem c ids && goes c runs))
  unfolding gc_each
  gc_each-get [] c runs = (refl, refl)
  gc_each-get (id ∷ ids) c runs = elim (Bool-cases (goes id runs)) [
    | inl t ↦
        let (left, removed) = gc_each-get ids c (remove id runs) in
        elim (key_cases id c) [
          | inl (same, e) ↦
              let gone : goes c runs ≡ true = subst (λ z. goes z runs ≡ true) e t in
              let lost : get c (remove id runs) ≡ none = get-remove id c runs ∙ rw same refl in
              rw (t, same, gone, gc_each) (left ∙ none_either _ _ lost, refl)
          | inr (f, n) ↦
              let kept : get c (remove id runs) ≡ get c runs = get-remove id c runs ∙ rw f refl in
              rw (t, f, gc_each)
                (
                  left
                      ∙ ap (λ o. if mem c ids && expired_entry env threshold o then none else o)
                          kept,
                  removed ∙ ap (λ o. mem c ids && expired_entry env threshold o) kept,
                )
        ]
    | inr f ↦
        let (left, removed) = gc_each-get ids c runs in
        elim (key_cases id c) [
          | inl (same, e) ↦
              let stays : goes c runs ≡ false = subst (λ z. goes z runs ≡ false) e f in
              rw (f, same, stays, gc_each)
                (
                  left ∙ rw (stays, and_false (mem c ids)) refl,
                  removed ∙ rw stays (and_false (mem c ids)),
                )
          | inr (other, n) ↦ rw (f, other, gc_each) (left, removed)
        ]
  ]

  goes-contains :
      (c : String) (runs : RunStore) → (contains_key c runs && goes c runs) ≡ goes c runs
  goes-contains c runs = elim (Option-cases (get c runs)) [
    | inl lost ↦ rw lost (and_false (contains_key c runs))
    | inr (run, there) ↦ rw (contains_key_of_get c runs run there) refl
  ]

  gc_runs-get :
      (c : String) (runs : RunStore)
      → (get c (gc_runs env threshold runs).1 ≡ (if goes c runs then none else get c runs))
        × (mem c (gc_runs env threshold runs).0 ≡ goes c runs)
  unfolding gc_runs
  gc_runs-get c runs =
      let (left, removed) = gc_each-get (keys runs) c runs in
      let same : (mem c (keys runs) && goes c runs) ≡ goes c runs =
        ap (λ b. b && goes c runs) (mem-keys c runs) ∙ goes-contains c runs in
      (left ∙ ap (λ b. if b then none else get c runs) same, removed ∙ same)

abbrev pub succeeded : Result GcError GcResponse → Bool
succeeded (ok response) = true
succeeded (err e) = false
succeeded panic = false
succeeded out_of_fuel = false

-- The runs that an answer names.
abbrev pub named : Result GcError GcResponse → List String
named (ok response) = response.removed_runs
named (err e) = []
named panic = []
named out_of_fuel = []

-- What the outcome says of the runs that are removed.
abbrev Tells : List String × RunStore → GcOutcome → Type 0
Tells (removed, left) outcome =
    (outcome.runs ≡ left)
    × (named outcome.result ≡ (if succeeded outcome.result then removed else []))
    × (outcome.events ≡ map run_removed_event (named outcome.result))

gc_answer-Tells :
    (gone : List String × RunStore) (globals : Option (List String))
    → Tells gone (gc_answer gone globals)
unfolding gc_answer
gc_answer-Tells (removed, left) none = (refl, refl, refl)
gc_answer-Tells (removed, left) (some globals) = (refl, refl, refl)

mem-if :
    (b : Bool) (c : String) (names : List String)
    → mem c (if b then names else []) ≡ (b && mem c names)
mem-if true c names = refl
mem-if false c names = refl

-- The run is stopped, and the time of its stop is not known, or is known and not after the threshold.
abbrev pub IsExpired : {Time : Type 0} → GcEnv Time → Time → RunRecord → Type 0
IsExpired {Time} env threshold run =
    (run.state ≡ RunLifecycle.stopped)
    × ((run.stopped_at ≡ none)
        ⊎ ((text : String) × (time : Time) × (run.stopped_at ≡ some text)
            × (env.parse_time text ≡ some time)
            × (env.is_after time threshold ≡ false)))

same_lifecycle_iff : (a b : RunLifecycle) → (same_lifecycle a b ≡ true) ↔ (a ≡ b)
same_lifecycle_iff a b = ground arith

-- The test of the source decides it.
run_expired_cases :
    {Time : Type 0} (env : GcEnv Time) (threshold : Time) (run : RunRecord)
    → (IsExpired env threshold run × (run_expired env threshold run ≡ true))
      ⊎ ((¬ IsExpired env threshold run) × (run_expired env threshold run ≡ false))
unfolding is_expired
run_expired_cases env threshold run =
    elim (Bool-cases (same_lifecycle run.state RunLifecycle.stopped)) [
      | inr f ↦ inr (
        λ (s, _). cc ((same_lifecycle_iff run.state RunLifecycle.stopped).1 s, f),
        rw (f, is_expired) refl,
      )
      | inl t ↦
          let stopped = (same_lifecycle_iff run.state RunLifecycle.stopped).0 t in
          elim (Option-cases run.stopped_at) [
            | inl unknown ↦ inl ((stopped, inl unknown), rw (t, unknown, is_expired) refl)
            | inr (text, at) ↦ elim (Option-cases (env.parse_time text)) [
              | inl unread ↦ inr (
                λ (_, when). elim when [
                  | inl unknown ↦ cc (unknown, at)
                  | inr (other, time, at', read, _) ↦
                      let same : other ≡ text = cc (at, at') in cc (same, read, unread)
                ],
                rw (t, at, is_expired) (rw unread refl),
              )
              | inr (time, read) ↦ elim (Bool-cases (env.is_after time threshold)) [
                | inl after ↦ inr (
                  λ (_, when). elim when [
                    | inl unknown ↦ cc (unknown, at)
                    | inr (other, when_read, at', read', before) ↦
                        let same : other ≡ text = cc (at, at') in
                        let time_read : when_read ≡ time = cc (same, read, read') in
                        cc (time_read, before, after)
                  ],
                  rw (t, at, is_expired) (rw (read, after) refl),
                )
                | inr before ↦ inl (
                  (stopped, inr (text, time, at, read, before)),
                  rw (t, at, is_expired) (rw (read, before) refl),
                )
              ]
            ]
          ]
    ]

run_gc-get :
    {Time : Type 0} (env : GcEnv Time) (request : GcRequest)
    (entries : Option (List (String × Option GlobalManifest))) (runs : RunStore) (threshold : Time)
    → gc_threshold env request ≡ ok threshold
    → let outcome = run_gc env request entries runs in
      ((c : String)
        → (get c outcome.runs
            ≡ (if expired_entry env threshold (get c runs) then none else get c runs))
          × (mem c (named outcome.result)
              ≡ (succeeded outcome.result && expired_entry env threshold (get c runs))))
      × (outcome.events ≡ map run_removed_event (named outcome.result))
unfolding run_gc gc_from
run_gc-get env request entries runs threshold h =
    let gone = gc_runs env threshold runs in
    let globals = removed_globals_of env threshold request.all_globals entries in
    let answer = gc_answer gone globals in
    let (left, names, events) = gc_answer-Tells gone globals in
    rw (h, gc_from)
      (
        λ c. (
          ap (get c) left ∙ (gc_runs-get env threshold c runs).0,
          ap (mem c) names
              ∙ mem-if _ c gone.0
              ∙ ap (λ b. succeeded answer.result && b) (gc_runs-get env threshold c runs).1,
        ),
        events,
      )

-- What becomes of the run with an id.
abbrev pub Fate : {Time : Type 0} → GcEnv Time → Time → RunStore → GcOutcome → String → Type 0
Fate env threshold runs outcome c =
    ((get c runs ≡ none) × (get c outcome.runs ≡ none) × (mem c (named outcome.result) ≡ false))
    ⊎ ((run : RunRecord) × (get c runs ≡ some run)
        × (IsExpired env threshold run
              × (get c outcome.runs ≡ none)
              × (mem c (named outcome.result) ≡ succeeded outcome.result)
            ⊎ (¬ IsExpired env threshold run)
              × (get c outcome.runs ≡ some run)
              × (mem c (named outcome.result) ≡ false)))

and_true : (b : Bool) → (b && true) ≡ b
and_true true = refl
and_true false = refl

-- When the threshold is a time, the runs that were stopped, at a time that is not known or not after the
-- threshold, are removed, and every other run stays as it was, even if the globals cannot be read. An
-- answer without an error names exactly the runs that are removed; there is an event for each run that is
-- named, and no other.
pub run_gc-removed :
    {Time : Type 0} (env : GcEnv Time) (request : GcRequest)
    (entries : Option (List (String × Option GlobalManifest))) (runs : RunStore) (threshold : Time)
    → gc_threshold env request ≡ ok threshold
    → ((c : String) → Fate env threshold runs (run_gc env request entries runs) c)
      × ((run_gc env request entries runs).events
          ≡ map run_removed_event (named (run_gc env request entries runs).result))
run_gc-removed env request entries runs threshold h =
    let outcome = run_gc env request entries runs in
    let (each, events) = run_gc-get env request entries runs threshold h in
    (
      λ c.
          let (left, names) = each c in
          elim (Option-cases (get c runs)) [
            | inl lost ↦
                inl (
                  lost,
                  left ∙ rw lost refl,
                  names ∙ rw lost (and_false (succeeded outcome.result)),
                )
            | inr (run, there) ↦ elim (run_expired_cases env threshold run) [
              | inl (expired, t) ↦ inr (
                run,
                there,
                inl (
                  expired,
                  left ∙ rw (there, t) refl,
                  names ∙ rw (there, t) (and_true (succeeded outcome.result)),
                ),
              )
              | inr (kept, f) ↦ inr (
                run,
                there,
                inr (
                  kept,
                  left ∙ rw (there, f) refl,
                  names ∙ rw (there, f) (and_false (succeeded outcome.result)),
                ),
              )
            ]
          ],
      events,
    )
