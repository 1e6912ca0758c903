-- ===== src/Core/Logging/Fields.antt =====
-- The fields of a message to the log: those of the event, and of the spans that it stands in.
use spawner.Prelude.{
  ◌≡◌, refl, sym, ap, ◌∙◌, List, [], ◌∷◌, ◌++◌, Option, none, some, ite, inl, inr, Option-cases,
  foldl-append,
}
use spawner.Prelude.Assoc
use spawner.Prelude.Assoc.{get-insert}
use spawner.Prelude.Text.{Text, Text_discrete}
use spawner.Messages.Logging.{Component}
use spawner.Core.Logging.{
  Recorded, json, debug, LogEvent, record_field, record_all, inherited, on_new_span, log_message,
}

abbrev pub concat : {A : Type 0} → List (List A) → List A
concat [] = []
concat (xs ∷ xss) = xs ++ concat xss

abbrev or_else : {A : Type 0} → Option A → Option A → Option A
or_else (some a) o = some a
or_else none o = o

module _ {V : Type 0} (parse : Text → Option V) (string : Text → V) where
  abbrev name_of : Recorded V → Text
  name_of (json name value) = name
  name_of (debug name printed) = name

  abbrev value_or : V → Option V → V
  value_or v (some w) = w
  value_or v none = v

  -- A printed value that is JSON is taken as that value, and any other as a string.
  abbrev value_of : Recorded V → V
  value_of (json name value) = value
  value_of (debug name printed) = value_or (string printed) (parse printed)

  -- The value that was recorded last under a name.
  abbrev pub last_recorded : Text → List (Recorded V) → Option V
  last_recorded name [] = none
  last_recorded name (r ∷ rs) =
      or_else (last_recorded name rs)
        (ite (Text_discrete name (name_of r)) (some (value_of r)) none)

  -- What the innermost of nested spans carries, the outermost first.
  abbrev pub nested :
      Option (Option (List (Text × V)))
      → List (List (Recorded V))
      → Option (Option (List (Text × V)))
  nested parent [] = parent
  nested parent (attrs ∷ spans) = nested (some (some (on_new_span parse string parent attrs))) spans

  record_field-insert :
      (fields : List (Text × V)) (r : Recorded V)
      → record_field parse string fields r
        ≡ Assoc.insert Text_discrete (name_of r) (value_of r) fields
  unfolding record_field
  record_field-insert fields (json name value) = refl
  record_field-insert fields (debug name printed) = elim (Option-cases (parse printed)) [
    | inl e ↦ rw (record_field, e) refl
    | inr (v, e) ↦ rw (record_field, e) refl
  ]

  or_else-ite :
      {P : Type 0} (o : Option V) (d : Dec P) (v : V) (b : Option V)
      → or_else o (ite d (some v) b) ≡ or_else (or_else o (ite d (some v) none)) b
  or_else-ite (some w) d v b = refl
  or_else-ite none (yes p) v b = refl
  or_else-ite none (no p) v b = refl

  get-record_all :
      (name : Text) (recorded : List (Recorded V)) (fields : List (Text × V))
      → Assoc.get Text_discrete name (record_all parse string fields recorded)
        ≡ or_else (last_recorded name recorded) (Assoc.get Text_discrete name fields)
  unfolding record_all
  get-record_all name [] fields = refl
  get-record_all name (r ∷ rs) fields =
      get-record_all name rs (record_field parse string fields r)
      ∙ ap (or_else (last_recorded name rs)) (
          ap (Assoc.get Text_discrete name) (record_field-insert fields r)
          ∙ get-insert Text_discrete name (name_of r) (value_of r) fields)
      ∙ or_else-ite (last_recorded name rs) (Text_discrete name (name_of r)) (value_of r) _

  record_all-append :
      (xs ys : List (Recorded V)) (fields : List (Text × V))
      → record_all parse string fields (xs ++ ys)
        ≡ record_all parse string (record_all parse string fields xs) ys
  unfolding record_all
  record_all-append =
      foldl-append (record_all parse string) (λ f. refl) (record_field parse string)
        (λ f c cs. refl)

  inherited-nested :
      (spans : List (List (Recorded V))) (parent : Option (Option (List (Text × V))))
      → inherited parse string (nested parent spans)
        ≡ record_all parse string (inherited parse string parent) (concat spans)
  unfolding inherited on_new_span record_all
  inherited-nested [] parent = refl
  inherited-nested (attrs ∷ spans) parent =
      inherited-nested spans (some (some (on_new_span parse string parent attrs)))
      ∙ sym (record_all-append attrs (concat spans) (inherited parse string parent))

  or_else-none : (o : Option V) → or_else o none ≡ o
  or_else-none none = refl
  or_else-none (some v) = refl

  -- A message carries, under each name, what the event recorded last under it, or else the innermost
  -- of the spans that it stands in and that recorded the name, or else nothing.
  pub log_message-fields :
      (component : Component) (e : LogEvent V) (spans : List (List (Recorded V))) (name : Text)
      → e.span ≡ nested none spans
      → Assoc.get Text_discrete name (log_message parse string component e).fields
        ≡ last_recorded name (concat spans ++ e.recorded)
  unfolding log_message Assoc.get inherited
  log_message-fields component e spans name q =
      ap
        (λ p.
          Assoc.get Text_discrete name
            (record_all parse string (inherited parse string p) e.recorded))
        q
      ∙ ap (λ f. Assoc.get Text_discrete name (record_all parse string f e.recorded))
          (inherited-nested spans none)
      ∙ ap (Assoc.get Text_discrete name) (sym (record_all-append (concat spans) e.recorded []))
      ∙ get-record_all name (concat spans ++ e.recorded) []
      ∙ or_else-none _
