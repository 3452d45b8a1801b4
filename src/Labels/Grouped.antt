-- ===== src/Labels/Grouped.antt =====
-- ddb/feature/docker/actions.py, `_build_event_data`: the labels of one event and identifier make one call.
use docker_devbox_ddb.Prelude.{
  String, true, false, ◌&&◌, Option, none, some, List, [], ◌∷◌, ◌++◌, append_assoc, append-nil,
  Result, ok, ◌>>=◌, ◌==◌, eq_iff, if◌then◌else◌, ◌≡◌, refl, sym, ap, ◌∙◌, arith, Bool-cases,
  Option-cases, Result-cases, inl, inr,
}
use docker_devbox_ddb.Dict.{Dict, lookup, lookup-insert}
use docker_devbox_ddb.Labels.{
  Key, Reader, Arguments, Calls, same_id, add_call, calls_of, add_event, parse_label, build_from,
  build_event_data,
}

same_id_refl : (a : Option String) → same_id a a ≡ true
same_id_refl none = refl
same_id_refl (some a) = (eq_iff a a).1 refl

same_id_eq : (a b : Option String) → same_id a b ≡ true → a ≡ b
same_id_eq none none h = refl
same_id_eq none (some b) h = absurd (ground arith)
same_id_eq (some a) none h = absurd (ground arith)
same_id_eq (some a) (some b) h = ap some ((eq_iff a b).0 h)

-- Identifiers that are the same as a third one are the same.
other_id :
    (k j id : Option String) → same_id k j ≡ false → same_id k id ≡ true → same_id j id ≡ false
other_id k j id n h = elim (Bool-cases (same_id j id)) [
  | inr other ↦ other
  | inl same ↦
      let e : k ≡ j = same_id_eq k id h ∙ sym (same_id_eq j id same) in
      let q : same_id k j ≡ true = ap (λ o. same_id k o) (sym e) ∙ same_id_refl k in
      absurd (ground arith)
]

module _ {V : Type 0} where
  -- The positional arguments of the call with an identifier, and of an event's
  abbrev pub args_of : Option String → Calls V → List V
  args_of id [] = []
  args_of id ((j, a) ∷ calls) = if same_id j id then a.args else args_of id calls

  abbrev pub event_args : String → Option String → Dict (Calls V) → List V
  event_args name id events = args_of id (calls_of (lookup name events))

  -- The arguments of the labels with a name and an identifier, one after the other
  abbrev pub label_args : String → Option String → List (Key × Arguments V) → List V
  label_args name id [] = []
  label_args name id ((key, a) ∷ parsed) =
      (if key.event_name == name && same_id key.event_id id then a.args else [])
      ++ label_args name id parsed

  abbrev add_parsed : List (Key × Arguments V) → Dict (Calls V) → Dict (Calls V)
  add_parsed [] events = events
  add_parsed ((key, a) ∷ parsed) events = add_parsed parsed (add_event key a events)

  args_of-add_call :
      (id j : Option String) (a : Arguments V) (calls : Calls V)
      → args_of id (add_call j a calls) ≡ args_of id calls ++ (if same_id j id then a.args else [])
  unfolding add_call
  args_of-add_call id j a [] = refl
  args_of-add_call id j a ((k, b) ∷ calls) = elim (Bool-cases (same_id k j)) [
    | inl same ↦
        let q : same_id j id ≡ same_id k id = ap (λ o. same_id o id) (sym (same_id_eq k j same)) in
        elim (Bool-cases (same_id k id)) [
          | inl here ↦ rw (same, q, here) refl
          | inr there ↦ rw (same, q, there) (sym (append-nil (args_of id calls)))
        ]
    | inr apart ↦ elim (Bool-cases (same_id k id)) [
      | inl here ↦ rw (apart, here, other_id k j id apart here) (sym (append-nil b.args))
      | inr there ↦ rw (apart, there) (args_of-add_call id j a calls)
    ]
  ]

  event_args-add_event :
      (name : String) (id : Option String) (key : Key) (a : Arguments V) (events : Dict (Calls V))
      → event_args name id (add_event key a events)
        ≡ event_args name id events
          ++ (if key.event_name == name && same_id key.event_id id then a.args else [])
  unfolding add_event
  event_args-add_event name id key a events =
      ap (λ o. args_of id (calls_of o))
        (lookup-insert key.event_name
          (add_call key.event_id a (calls_of (lookup key.event_name events))) events name)
      ∙ elim (Bool-cases (key.event_name == name)) [
        | inl same ↦
            let e : key.event_name ≡ name = ground (arith, eq_iff key.event_name name) in
            rw same (
              args_of-add_call id key.event_id a (calls_of (lookup key.event_name events))
              ∙ ap
                  (λ n.
                    args_of id (calls_of (lookup n events))
                    ++ (if same_id key.event_id id then a.args else []))
                  e)
        | inr other ↦ rw other (sym (append-nil (event_args name id events)))
      ]

  event_args-add_parsed :
      (name : String) (id : Option String) (parsed : List (Key × Arguments V))
      (events : Dict (Calls V))
      → event_args name id (add_parsed parsed events)
        ≡ event_args name id events ++ label_args name id parsed
  event_args-add_parsed name id [] events = sym (append-nil (event_args name id events))
  event_args-add_parsed name id ((key, a) ∷ parsed) events =
      event_args-add_parsed name id parsed (add_event key a events)
      ∙ ap (λ l. l ++ label_args name id parsed) (event_args-add_event name id key a events)
      ∙ append_assoc (event_args name id events) _ (label_args name id parsed)

module _ {V X : Type 0} (reader : Reader V X) where
  abbrev pub parse_next :
      (Key → Result X (Arguments V))
      → Result X (List (Key × Arguments V))
      → Option Key
      → Result X (List (Key × Arguments V))
  parse_next parse rest none = rest
  parse_next parse rest (some key) =
      parse key >>= (λ a. rest >>= (λ parsed. ok ((key, a) ∷ parsed)))

  -- Each label that is an event's, with the arguments that it is parsed to; the first exception ends it.
  abbrev pub parse_labels : String → Dict String → Result X (List (Key × Arguments V))
  parse_labels service [] = ok []
  parse_labels service ((label, value) ∷ labels) =
      parse_next (λ key. parse_label reader service key value) (parse_labels service labels)
        (reader.match_key label)

  build_from-parse_labels :
      (service : String) (labels : Dict String) (events : Dict (Calls V))
      → build_from reader service labels events
        ≡ (parse_labels service labels >>= (λ parsed. ok (add_parsed parsed events)))
  unfolding build_from
  build_from-parse_labels service [] events = refl
  build_from-parse_labels service ((label, value) ∷ labels) events =
      elim (Option-cases (reader.match_key label)) [
        | inl other ↦ rw other (build_from-parse_labels service labels events)
        | inr (key, found) ↦ elim (Result-cases (parse_label reader service key value)) [
          | inr (x, raised) ↦ rw (found, raised) refl
          | inl (a, parsed) ↦
              rw (found, parsed)
                (build_from-parse_labels service labels (add_event key a events)
                  ∙ elim (Result-cases (parse_labels service labels)) [
                    | inl (ps, all) ↦ rw all refl
                    | inr (x, raised) ↦ rw raised refl
                  ])
        ]
      ]

  -- When every label of a service that stands for an event is parsed, the events are built, and the call of an event
  -- with an identifier has the positional arguments of just the labels with both, in the order of the labels.
  pub build_event_data-args :
      (service : String) (labels : Dict String) (parsed : List (Key × Arguments V))
      → parse_labels service labels ≡ ok parsed
      → (events : Dict (Calls V)) × (build_event_data reader service labels ≡ ok events)
        × ((name : String) (id : Option String)
            → event_args name id events ≡ label_args name id parsed)
  unfolding build_event_data lookup
  build_event_data-args service labels parsed h = (
    add_parsed parsed [],
    build_from-parse_labels service labels [] ∙ ap (λ r. r >>= (λ ps. ok (add_parsed ps []))) h,
    (λ name id. event_args-add_parsed name id parsed []),
  )
