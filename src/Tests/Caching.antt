-- ===== src/Tests/Caching.antt =====
-- The theorems on the keys, leaderboards and streams of the cache.
use dreon_notification.Prelude.{
  ◌≡◌, refl, true, if◌then◌else◌, String, List, [], ◌∷◌, Option, none, some, take, ltb→lt,
}
use dreon_notification.Go.Error.{ok, plain}
use dreon_notification.Go.Int.{pos}
use dreon_notification.Go.Value.{Value, arr, no_elements}
use dreon_notification.World.{World, Entry}
use dreon_notification.Cache.{AppCache, prefixed_key, item_at}
use dreon_notification.Cache.Store.Refinement.{
  Request, setting, setting_once, getting, deleting, perform_all, answer_all, view,
  perform_all-refines,
}
use dreon_notification.Cache.Board.{get_rank, get_top_n, score_of}
use dreon_notification.Cache.Board.Order.{IsOrdered}
use dreon_notification.Cache.Board.Standing.{
  Change, score, leave, change_all, last_score, RankOutcome, change_all-IsLeaderboard,
}
use dreon_notification.Cache.Stream.{Redis, Answers, same_number, group_at, stream_at}
use dreon_notification.Cache.Stream.Order.{
  Act, publishing, reading, act_all, OrderOutcome, act_all-OrderOutcome,
}
use dreon_notification.Tests.{calm_env, start}

abbrev keys : AppCache
keys = record { service_name = "notification" }

abbrev not_json : Value → Option Value
not_json v = none

abbrev calls : List Request
calls =
    setting "a" (arr no_elements) (pos 60)
    ∷ getting "a"
    ∷ setting_once "a" (pos 60)
    ∷ deleting "a"
    ∷ getting "a"
    ∷ []

perform_all-refines_example :
    ((perform_all calm_env keys not_json calls start).0
      ≡ (answer_all calm_env not_json calls (view keys start)).0)
    × (view keys (perform_all calm_env keys not_json calls start).1
        ≡ (answer_all calm_env not_json calls (view keys start)).1)
perform_all-refines_example = perform_all-refines calm_env keys not_json calls start

abbrev changes : List Change
changes = score "ann" 7 ∷ leave "bob" ∷ score "bob" 9 ∷ score "ann" 3 ∷ score "cid" 8 ∷ []

change_all-IsLeaderboard_example :
    let v : World = change_all calm_env keys "week" changes start in
    (es : List Entry) × IsOrdered es
    × ((j : String) → score_of j es ≡ last_score changes j)
    × RankOutcome calm_env keys "week" changes "ann" es (get_rank calm_env keys "week" "ann" v).0
    × ((get_top_n calm_env keys "week" (pos 2) v).0 ≡ ok (take 2 es))
    × ((get_top_n calm_env keys "week" (pos 0) v).0 ≡ ok es)
unfolding item_at
change_all-IsLeaderboard_example =
    change_all-IsLeaderboard calm_env keys "week" (λ n. refl) changes "ann" 1 start refl
      (ltb→lt _ _ refl)

-- The third call of Redis, the acknowledgement of the first message, fails.
abbrev unsteady : Answers
unsteady = record {
  fault = λ n. if same_number n 2 then some (plain "lost") else none;
  busy_group = plain "BUSYGROUP";
  is_busy = λ e. true;
}

abbrev with_group : Redis String
with_group = record {
  streams =
      (
        "notification:sent",
        record {
          entries = "old" ∷ [];
          groups = record { name = "mailer"; next = 1; pending = [] } ∷ [];
        },
      )
      ∷ [];
  handled = [];
  calls = 0;
}

abbrev some_acts : List (Act String)
some_acts = publishing "a" ∷ reading ∷ publishing "b" ∷ reading ∷ publishing "c" ∷ []

act_all-OrderOutcome_example :
    OrderOutcome unsteady some keys "sent" "mailer" some_acts with_group
      (act_all unsteady some keys "sent" "mailer" some_acts with_group)
unfolding group_at stream_at prefixed_key
act_all-OrderOutcome_example =
    act_all-OrderOutcome unsteady some keys "sent" "mailer" some_acts with_group
      (record { name = "mailer"; next = 1; pending = [] }, refl, ltb→lt _ _ refl)
