-- ===== src/Dds/Unmatched.antt =====
-- A publish over DDS that no reader is matched to.
use mom_rpc.Dds.Actor.{
  wait_publication, Cmd, DdsActor, matched, wait_for_match, wait_for_matched_reader, write_to,
  handle_publish, handle_cmd, verify_match, find_writer, ensure_writer,
}
use mom_rpc.Dds.Steps.{calls, returns, Step, proceed, ◌>>=◌}
use mom_rpc.Base.{◌<>◌, if◌then◌else◌, ltb, arith, ◌∷◌, refl, ◌≡◌, String, ℕ}
use mom_rpc.Error.{transport, RpcError, Result, ok, err, Attempt, done}
use mom_rpc.Domain.{Bytes, Envelope}
use mom_rpc.Calls.{answered}
use mom_rpc.Dds.Participant.{Participant}
use mom_rpc.Dds.Transport.{publish}

abbrev Fails : {S A : Type 0} → Step S A → Type 0
Fails {S} step = (s : S) → (e : RpcError) × ((step s).0 ≡ err e)

module _ {S A B : Type 0} (rest : A → Step S B) where
  proceed-err :
      (r : Result A × S)
      → ((a : A) → r.0 ≡ ok a → Fails (rest a))
      → (e : RpcError) × ((proceed rest r).0 ≡ err e)
  proceed-err (ok a, s) f = f a refl s
  proceed-err (err e, s) f = (e, refl)

  -- A sequence fails if the step after its first does.
  bind-Fails : (first : Step S A) → ((a : A) → Fails (rest a)) → Fails (first >>= rest)
  bind-Fails first f s = proceed-err (first s) (λ a o. f a)

  -- It fails if its first step does.
  first-Fails : (first : Step S A) → Fails first → Fails (first >>= rest)
  first-Fails first f s = let (e, h) = f s in proceed-err (first s) (λ a o. absurd (cc))

module _ (p : Participant)
    (alone : (w : p.Writer) (s : p.State) → (p.get_publication_matched_status w s).0 ≡ done 0) where
  none_matched : (w : p.Writer) (s : p.State) (n : ℕ) → (matched p w s).0 ≡ ok n → n ≡ 0
  none_matched w s n h = ground (arith, alone w s)

  verify_match-Fails :
      (tid topic : String) (w : p.Writer) → Fails (matched p w >>= verify_match p tid topic)
  verify_match-Fails tid topic w s =
      proceed-err (verify_match p tid topic) (matched p w s)
        (λ n h t. rw (none_matched w s n h) (_, refl))

  wait_for_match-Fails :
      (tid topic : String) (w : p.Writer) (n : ℕ) → Fails (wait_for_match p tid topic w n)
  wait_for_match-Fails tid topic w n =
      bind-Fails _
        (calls (p.set_enabled_statuses w)
          (λ text. transport ("set_enabled_statuses failed: " <> text)))
        (λ _.
          bind-Fails _
            (calls (p.attach_condition w) (λ text. transport ("attach_condition failed: " <> text)))
            (λ _.
              bind-Fails _ (wait_publication p tid topic w n)
                (λ _. verify_match-Fails tid topic w)))

  wait-Fails :
      (tid topic : String) (w : p.Writer) (n : ℕ) → Fails (wait_for_matched_reader p tid topic w n)
  unfolding wait_for_matched_reader
  wait-Fails tid topic w n s =
      proceed-err
        (λ current_count.
          if ltb 0 current_count then returns (ok tt) else wait_for_match p tid topic w n)
        (matched p w s) (λ m h. rw (none_matched w s m h) (wait_for_match-Fails tid topic w n))

  write_to-Fails :
      (to_vec : Envelope → Attempt Bytes) (tid topic : String) (env : Envelope) (w : p.Writer)
      → Fails (write_to p to_vec tid topic env w)
  unfolding write_to
  write_to-Fails to_vec tid topic env w s =
      first-Fails _ (wait_for_matched_reader p tid topic w 5) (wait-Fails tid topic w 5) s

  module _ {Q : Type 0} (to_vec : Envelope → Attempt Bytes) where
    handle_publish-Fails :
        (topic : String) (env : Envelope) → Fails (handle_publish p {Q = Q} to_vec topic env)
    unfolding handle_publish
    handle_publish-Fails topic env a =
        bind-Fails _ (ensure_writer p topic)
          (λ _.
            bind-Fails _ (find_writer p topic)
              (λ w b. write_to-Fails to_vec a.transport_id topic env w b.participant))
          a

    -- If no reader is ever matched to a writer of the participant, the actor answers a publish by an
    -- error, and the transport's publish, which has this answer, returns Ok.
    pub unmatched_publish :
        (topic tid : String) (env : Envelope) (resp : ℕ) (a : DdsActor p Q)
        → (e : RpcError) × ((handle_cmd p to_vec (Cmd.publish topic env resp) a).1.replies
            ≡ (resp, err e) ∷ (handle_publish p to_vec topic env a).1.replies)
          × (publish tid (answered (err e)) ≡ ok tt)
    unfolding handle_cmd publish
    unmatched_publish topic tid env resp a =
        let (e, fails) = handle_publish-Fails topic env a in (e, rw fails refl, refl)
