-- ===== src/Activity/Sending.antt =====
-- application/src/server/activity.rs: the rounds of the task that sends the activities.
use ailes.Common.{
  ℕ, zero, suc, ◌+◌, ◌-◌, ◌≤◌, ◌<◌, Option, none, some, List, [], ◌∷◌, ◌++◌, length, length-append,
  length-drop, length-take, take-append-drop, append-nil, append_assoc, take, drop, take_of_le,
  drop_of_le, lt→ltb, ap₂, ◌≡◌, refl, sym, ap, ◌∙◌, arith,
}
use ailes.Activity.{
  channel_capacity, log_activity, recv_many, Activity, Kind, Group, merge_activities, split_batch,
  send_round,
}
use ailes.Activity.Kept.{passed, passed-append, total, total-append}
use ailes.Activity.Merged.{
  IsOrder, merge_activities-passed, length-merge_activities, merge_activities-total,
}

module _ {J : Type 0} (into_order : List (Group J) → List (Group J)) where
  -- Rounds while the channel is open: the count that is set, and at least one activity that is drained.
  -- The result is all that is sent, and what is left over.
  unfoldable pub send_open :
      List (ℕ × Activity J × List (Activity J))
      → List (Activity J)
      → List (Activity J) × List (Activity J)
  send_open [] leftover = ([], leftover)
  send_open ((send_count, activity, drained) ∷ rounds) leftover =
      elim (send_round into_order send_count leftover (activity ∷ drained)) [
        | none ↦ ([], leftover)
        | some (to_send, rest) ↦ let later = send_open rounds rest in (to_send ++ later.0, later.1)
      ]

  -- Rounds behind the end of the channel, up to the end of the task.
  unfoldable pub send_closed : ℕ → ℕ → List (Activity J) → Option (List (Activity J))
  send_closed zero send_count leftover = none
  send_closed (suc rounds) send_count leftover =
      elim (send_round into_order send_count leftover []) [
        | none ↦ some []
        | some (to_send, rest) ↦ elim (send_closed rounds send_count rest) [
          | none ↦ none
          | some later ↦ some (to_send ++ later)
        ]
      ]

module _ {J : Type 0} where
  abbrev pub all_drained : List (ℕ × Activity J × List (Activity J)) → List (Activity J)
  all_drained [] = []
  all_drained ((send_count, activity, drained) ∷ rounds) =
      activity ∷ (drained ++ all_drained rounds)

module _ {J : Type 0} (send_count : ℕ) (merged : List (Activity J)) where
  split-append : (split_batch send_count merged).0 ++ (split_batch send_count merged).1 ≡ merged
  unfolding split_batch
  split-append = ground (arith, take-append-drop send_count merged, append-nil merged)

  -- No more is sent at once than the count that is set.
  pub split_batch-length : length (split_batch send_count merged).0 ≤ send_count
  unfolding split_batch
  split_batch-length = ground (arith, length-take send_count merged)

  split-rest : 1 ≤ send_count → length (split_batch send_count merged).1 ≤ length merged - 1
  unfolding split_batch
  split-rest h = ground (arith, length-drop send_count merged)

module _ {J : Type 0} where
  -- The same activities pass by the maps, in the same order, and every file is as often there, with the same
  -- event and user, or the same user and directory.
  abbrev pub Same : List (Activity J) → List (Activity J) → Type 0
  Same xs ys = (passed xs ≡ passed ys) × ((q : Kind → J → ℕ) → total q xs ≡ total q ys)

  Same-eq : (xs ys : List (Activity J)) → xs ≡ ys → Same xs ys
  Same-eq xs ys p = (ap passed p, λ q. ap (total q) p)

  Same-trans : (xs ys zs : List (Activity J)) → Same xs ys → Same ys zs → Same xs zs
  Same-trans xs ys zs (p, t) (p', t') = (p ∙ p', λ q. t q ∙ t' q)

  Same-append :
      (xs xs' ys ys' : List (Activity J)) → Same xs xs' → Same ys ys' → Same (xs ++ ys) (xs' ++ ys')
  Same-append xs xs' ys ys' (p, t) (p', t') = (
    passed-append xs ys ∙ ap₂ (λ us vs. us ++ vs) p p' ∙ sym (passed-append xs' ys'),
    λ q. omega (arith, t q, t' q, total-append q xs ys, total-append q xs' ys'),
  )

  -- What is sent now and later, and stays, against the batch and what is drained later.
  later-Same :
      (batch drained : List (Activity J)) (now later : List (Activity J) × List (Activity J))
      → Same (now.0 ++ now.1) batch
      → Same (later.0 ++ later.1) (now.1 ++ drained)
      → Same ((now.0 ++ later.0) ++ later.1) (batch ++ drained)
  later-Same batch drained now later h k =
      Same-trans _ (now.0 ++ (now.1 ++ drained)) _
        (Same-trans _ (now.0 ++ (later.0 ++ later.1)) _
          (Same-eq _ _ (append_assoc now.0 later.0 later.1))
          (Same-append now.0 now.0 (later.0 ++ later.1) (now.1 ++ drained) (Same-eq _ _ refl) k))
        (Same-trans _ ((now.0 ++ now.1) ++ drained) _
          (Same-eq _ _ (sym (append_assoc now.0 now.1 drained)))
          (Same-append (now.0 ++ now.1) batch drained drained h (Same-eq _ _ refl)))

module _ {J : Type 0} (into_order : List (Group J) → List (Group J))
    (order : IsOrder into_order) where
  split-Same :
      (send_count : ℕ) (batch : List (Activity J))
      → let now = split_batch send_count (merge_activities into_order batch) in
        Same (now.0 ++ now.1) batch
  split-Same send_count batch =
      Same-trans _ (merge_activities into_order batch) batch
        (Same-eq _ _ (split-append send_count (merge_activities into_order batch)))
        (
          merge_activities-passed into_order order batch,
          λ q. merge_activities-total into_order order q batch,
        )

  send_open-Same :
      (rounds : List (ℕ × Activity J × List (Activity J))) (leftover : List (Activity J))
      → let (sent, rest) = send_open into_order rounds leftover in
        Same (sent ++ rest) (leftover ++ all_drained rounds)
  unfolding send_open send_round
  send_open-Same [] leftover = Same-eq _ _ (sym (append-nil leftover))
  send_open-Same ((send_count, a, drained) ∷ rounds) [] =
      let batch = a ∷ drained in
      let now = split_batch send_count (merge_activities into_order batch) in
      later-Same batch (all_drained rounds) now (send_open into_order rounds now.1)
        (split-Same send_count batch) (send_open-Same rounds now.1)
  send_open-Same ((send_count, a, drained) ∷ rounds) (l ∷ leftover) =
      let batch = l ∷ (leftover ++ a ∷ drained) in
      let now = split_batch send_count (merge_activities into_order batch) in
      let later = send_open into_order rounds now.1 in
      Same-trans ((now.0 ++ later.0) ++ later.1) (batch ++ all_drained rounds)
        ((l ∷ leftover) ++ ((a ∷ drained) ++ all_drained rounds))
        (later-Same batch (all_drained rounds) now later (split-Same send_count batch)
          (send_open-Same rounds now.1))
        (Same-eq _ _ (append_assoc (l ∷ leftover) (a ∷ drained) (all_drained rounds)))

  send_closed-ends :
      (rounds send_count : ℕ) (leftover : List (Activity J))
      → 1 ≤ send_count
      → length leftover < rounds
      → (sent : List (Activity J)) × (send_closed into_order rounds send_count leftover ≡ some sent)
        × Same sent leftover
  unfolding send_closed send_round
  send_closed-ends zero send_count leftover h k = absurd (omega arith)
  send_closed-ends (suc rounds) send_count [] h k = ([], refl, Same-eq [] [] refl)
  send_closed-ends (suc rounds) send_count (l ∷ leftover) h k =
      let batch = l ∷ (leftover ++ []) in
      let merged = merge_activities into_order batch in
      let now = split_batch send_count merged in
      let (later, ended, kept) = send_closed-ends rounds send_count now.1 h (
        omega (
          arith,
          split-rest send_count merged h,
          length-merge_activities into_order order batch,
          length-append leftover [],
        )) in
      (
        now.0 ++ later,
        ap (λ o. elim o [ none ↦ none | some later ↦ some (now.0 ++ later) ]) ended,
        Same-trans (now.0 ++ later) batch (l ∷ leftover)
            (Same-trans _ (now.0 ++ now.1) batch
              (Same-append now.0 now.0 later now.1 (Same-eq _ _ refl) kept)
              (split-Same send_count batch))
            (Same-eq batch (l ∷ leftover) (append-nil (l ∷ leftover))),
      )

  -- After every round, what is sent and what is left over is what was drained: the activities that no map
  -- takes in their order, and each file of the others exactly once, with the event and user or the user and
  -- directory of its activity. If the channel ends and the count that is set then is not zero, a task that
  -- is not aborted ends within one round more than activities are left over, and has sent all of it.
  pub send-Same :
      (rounds : List (ℕ × Activity J × List (Activity J))) (send_count : ℕ)
      → 1 ≤ send_count
      → let (sent, leftover) = send_open into_order rounds [] in
        Same (sent ++ leftover) (all_drained rounds)
        × ((last : List (Activity J)) × (send_closed into_order
                (suc (length leftover))
                send_count
                leftover
              ≡ some last)
            × Same (sent ++ last) (all_drained rounds))
  send-Same rounds send_count h =
      let (sent, leftover) = send_open into_order rounds [] in
      let (last, ended, kept) =
        send_closed-ends (suc (length leftover)) send_count leftover h (omega arith) in
      let now = send_open-Same rounds [] in
      (
        now,
        (
          last,
          ended,
          Same-trans _ (sent ++ leftover) _
              (Same-append sent sent last leftover (Same-eq _ _ refl) kept) now,
        ),
      )

module _ {J : Type 0} where
  abbrev log_all : List (Activity J) → List (Activity J) → List (Activity J)
  log_all [] queue = queue
  log_all (a ∷ activities) queue = log_all activities (log_activity a queue)

  log_activity-room :
      (a : Activity J) (queue : List (Activity J))
      → length queue < channel_capacity
      → log_activity a queue ≡ queue ++ a ∷ []
  unfolding log_activity
  log_activity-room a queue h = rw (lt→ltb (length queue) channel_capacity h) refl

  log_all-room :
      (activities queue : List (Activity J))
      → length queue + length activities ≤ channel_capacity
      → log_all activities queue ≡ queue ++ activities
  log_all-room [] queue h = sym (append-nil queue)
  log_all-room (a ∷ activities) queue h =
      ap (log_all activities) (log_activity-room a queue (omega arith))
      ∙ log_all-room activities (queue ++ a ∷ []) (omega (arith, length-append queue (a ∷ [])))
      ∙ append_assoc queue (a ∷ []) activities

  -- What is logged between two rounds is drained as it is if the channel has room for it.
  pub recv_many-log_all :
      (activities : List (Activity J))
      → length activities ≤ channel_capacity
      → recv_many (log_all activities []) ≡ (activities, [])
  unfolding recv_many
  recv_many-log_all activities h =
      ap (λ queue. (take channel_capacity queue, drop channel_capacity queue))
        (log_all-room activities [] (omega arith))
      ∙ ap₂ (λ xs ys. (xs, ys)) (take_of_le channel_capacity activities h)
          (drop_of_le channel_capacity activities h)
