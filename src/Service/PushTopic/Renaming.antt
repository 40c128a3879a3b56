-- ===== src/Service/PushTopic/Renaming.antt =====
-- internal/service/pushtopic.go, `Update`.
use mathlib.Core.Path.{subst}
use dreon_notification.Prelude.{
  ℕ, ◌≡◌, refl, sym, ap, ◌∙◌, ◌⊎◌, inl, inr, false, ◌&&◌, not, String, ◌==◌, map, Option, none,
  some, find, Bool-cases,
}
use dreon_notification.Go.Error.{Error, Result, ok, err, bad_request, new}
use dreon_notification.Go.Text.{trim_space}
use dreon_notification.Model.{PushTopic}
use dreon_notification.World.{World, Env, Tables}
use dreon_notification.World.Exec.{◌>>=◌, ◌>>◌, guard, map_error}
use dreon_notification.World.Frame.{Result-cases, ok-injective}
use dreon_notification.World.Quiet.{quiet-then, guard_quiet}
use dreon_notification.Repository.{is_live, has_id, updated, update, find_one, find_one_by_id}
use dreon_notification.Repository.Schema.{push_topics}
use dreon_notification.Repository.Change.{update-UpdateOutcome}
use dreon_notification.Repository.Found.{find_one_lem}
use dreon_notification.Repository.PushTopics.{find_by_name}
use dreon_notification.Aggregate.PushTopic.{UpdatePushTopicReq}
use dreon_notification.Service.Send.{or_fail}
use dreon_notification.Service.Queue.{refuse_invalid}
use dreon_notification.Service.Refused.{refuse_quiet}
use dreon_notification.Service.PushTopic.{is_some, assign_topic, is_other, new_name, update_topic}

-- The name that a request asks for
abbrev pub asked_name : Option String → Option String
asked_name none = none
asked_name (some raw) = some (trim_space raw)

abbrev pub IsName : Option String → Type 0
IsName none = Unit
IsName (some name) = (name == "") ≡ false

module _ (env : Env) (id : String) (req : UpdatePushTopicReq) where
  -- The row after the update.
  abbrev pub renamed : ℕ → PushTopic → PushTopic
  renamed = updated push_topics (has_id push_topics id) (assign_topic (asked_name req.name) req)

  -- Nothing changes and there is an error; or the live rows with the id, of which there is one, get what
  -- the request asks for.
  abbrev pub RenamingOutcome : World → Result (Unit {0}) → World → Type 0
  RenamingOutcome w r v =
      ((e : Error) × (r ≡ err e) × (v.tables ≡ w.tables))
      ⊎ ((now : ℕ) × (current : PushTopic) × (r ≡ ok tt)
          × (find (λ t. is_live push_topics t && has_id push_topics id t) w.push_topics
              ≡ some current)
          × IsName (asked_name req.name)
          × (v.tables ≡ record w.tables { push_topics = map (renamed now) w.push_topics }))

  abbrev Renames : World → Result (Unit {0}) × World → Type 0
  Renames w (r, v) = RenamingOutcome w r v

  find_by_name_quiet : (name : String) (w : World) → (find_by_name env name w).1.tables ≡ w.tables
  unfolding find_by_name
  find_by_name_quiet name w = (find_one_lem env push_topics (λ r. r.name == name) w).0

  new_name_lem :
      (asked : Option String) (w : World)
      → ((new_name env id asked w).1.tables ≡ w.tables)
        × ((name : Option String)
            → (new_name env id asked w).0 ≡ ok name
            → (name ≡ asked_name asked) × IsName (asked_name asked))
  unfolding new_name
  new_name_lem none w = (refl, λ name h. ((sym (ok-injective h)), tt))
  new_name_lem (some raw) w = elim (Bool-cases (trim_space raw == "")) [
    | inl e ↦ rw e (refl, λ name h. cc)
    | inr e ↦
        let same = find_by_name_quiet (trim_space raw) w in
        elim (Result-cases (find_by_name env (trim_space raw) w).0) [
          | inl (f, eq) ↦ rw (e, eq) (same, λ name h. cc)
          | inr (o, eq) ↦ elim (Bool-cases (is_other id o)) [
            | inl other ↦ rw (e, eq, other) (same, λ name h. cc)
            | inr free ↦ rw (e, eq, free) (same, λ name h. ((sym (ok-injective h)), refl))
          ]
        ]
  ]

  failed : (w : World) (e : Error) (v : World) → v.tables ≡ w.tables → Renames w (err e, v)
  failed w e v d = inl (e, refl, d)

  -- The rest of `Update`, for a row that was found
  module _ (w : World) (current : PushTopic)
      (found : find (λ t. is_live push_topics t && has_id push_topics id t) w.push_topics
        ≡ some current) where
    assigned-Renames :
        (f : Error → Error) (name : Option String) (u : World)
        → (name ≡ asked_name req.name) × IsName (asked_name req.name)
        → u.tables ≡ w.tables
        → Renames w (map_error f (update env push_topics id (assign_topic name req)) u)
    assigned-Renames f name u (asked, sound) same =
        elim (update-UpdateOutcome env push_topics id (assign_topic name req) u) [
          | inl (e, eq, kept) ↦ rw eq (inl (_, refl, kept ∙ same))
          | inr (now, eq, changed) ↦
              let put : Option String → Tables → Tables = λ n t. record t {
                push_topics =
                    map (updated push_topics (has_id push_topics id) (assign_topic n req) now)
                      t.push_topics;
              } in
              rw eq (
                inr (
                  now,
                  current,
                  refl,
                  found,
                  sound,
                  changed ∙ ap (λ n. put n u.tables) asked ∙ ap (put (asked_name req.name)) same,
                ))
        ]

    found-Renames :
        (f : Error → Error) (empty : Error) (u : World)
        → u.tables ≡ w.tables
        → Renames w (
            (do
              name ← new_name env id req.name
              guard
                  (not (is_some name)
                    && not (is_some req.description)
                    && not (is_some req.is_active))
                  empty
              map_error f (update env push_topics id (assign_topic name req)))
              u)
    found-Renames f empty u same =
        quiet-then (λ t. t ≡ w.tables) (Renames w) (failed w) (new_name env id req.name) _ u
          (new_name_lem req.name u).0 same
          λ name e d1.
            let v = (new_name env id req.name u).1 in
            let blank =
              not (is_some name) && not (is_some req.description) && not (is_some req.is_active) in
            quiet-then (λ t. t ≡ w.tables) (Renames w) (failed w) (guard blank empty)
              (λ _. map_error f (update env push_topics id (assign_topic name req))) v
              (guard_quiet blank empty v) d1
              (λ _ _ d2.
                assigned-Renames f name (guard blank empty v).1 ((new_name_lem req.name u).1 name e)
                  d2)

  looked_up-Renames :
      (f : Error → Error) (missing empty : Error) (w u : World)
      → u.tables ≡ w.tables
      → Renames w (
          (do
            found ← find_one_by_id env push_topics id
            current ← or_fail found missing
            name ← new_name env id req.name
            guard
                (not (is_some name) && not (is_some req.description) && not (is_some req.is_active))
                empty
            map_error f (update env push_topics id (assign_topic name req)))
            u)
  unfolding find_one_by_id
  looked_up-Renames f missing empty w u same =
      let (quiet, held) = find_one_lem env push_topics (has_id push_topics id) u in
      quiet-then (λ t. t ≡ w.tables) (Renames w) (failed w)
        (find_one env push_topics (has_id push_topics id)) _ u quiet same
        λ o e d1. or_missing o e d1
    where
      or_missing :
          (o : Option PushTopic)
          → (find_one env push_topics (has_id push_topics id) u).0 ≡ ok o
          → (find_one env push_topics (has_id push_topics id) u).1.tables ≡ w.tables
          → Renames w (
              (do
                current ← or_fail o missing
                name ← new_name env id req.name
                guard
                    (not (is_some name)
                      && not (is_some req.description)
                      && not (is_some req.is_active))
                    empty
                map_error f (update env push_topics id (assign_topic name req)))
                (find_one env push_topics (has_id push_topics id) u).1)
      or_missing none e d1 = inl (_, refl, d1)
      or_missing (some current) e d1 =
          found-Renames w current
            (subst
              (λ t.
                find (λ r. is_live push_topics r && has_id push_topics id r) t.push_topics
                ≡ some current)
              same ((find_one_lem env push_topics (has_id push_topics id) u).1 current e))
            f empty _ d1

  -- An update of a topic fails and changes nothing; or the topic is there, the name that it is to get, if
  -- any, is not blank, and exactly the live row with the id has got the trimmed name, the description and
  -- the flag that the request gives, and keeps what it does not give.
  pub update_topic-RenamingOutcome :
      (validate : UpdatePushTopicReq → Option Error) (w : World)
      → RenamingOutcome w
          (update_topic env validate id req w).0
          (update_topic env validate id req w).1
  unfolding update_topic
  update_topic-RenamingOutcome validate w =
      quiet-then (λ t. t ≡ w.tables) (Renames w) (failed w)
        (guard (trim_space id == "") (new bad_request "id is required")) _ w (guard_quiet _ _ w)
        refl
        λ _ _ d1.
          quiet-then (λ t. t ≡ w.tables) (Renames w) (failed w) (refuse_invalid (validate req)) _ _
            (refuse_quiet _ _) d1 λ _ _ d2. looked_up-Renames _ _ _ w _ d2
