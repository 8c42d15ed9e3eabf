-- ===== src/Dds/Drains.antt =====
-- What a drain of a reader hands out, and that it ends.
use mom_rpc.Base.{
  sym, length-append, length, arith, ◌++◌, ◌∷◌, [], List, some, Option, inr, inl, ◌⊎◌, ◌∙◌, ap,
  refl, ◌≡◌, String, ◌<◌, suc, zero, ℕ,
}
use mom_rpc.Error.{ok, Attempt}
use mom_rpc.Domain.{Bytes, Envelope}
use mom_rpc.Channels.{Channels}
use mom_rpc.FanOut.{Local}
use mom_rpc.Dds.Participant.{Participant, DdsEnvelope, samples, no_data}
use mom_rpc.Dds.Reader.{hand_out_sample, hand_out_samples, drain_reader}

-- The samples that a reader has not taken yet: `take` returns some of them, oldest first, or
-- NoData if there are none.
pub record Cache (p : Participant) (reader : p.Reader) : Type 0 where
  pub unread : p.State → List (Option DdsEnvelope)
  pub take-empty :
      (n : ℕ) (s : p.State)
      → unread s ≡ []
      → ((p.take reader n s).0 ≡ no_data) × (unread (p.take reader n s).1 ≡ [])
  pub take-samples :
      (n : ℕ) (s : p.State) (sample : Option DdsEnvelope) (rest : List (Option DdsEnvelope))
      → 0 < n
      → unread s ≡ sample ∷ rest
      → (batch : List (Option DdsEnvelope)) × ((p.take reader n s).0 ≡ samples (sample ∷ batch))
        × (rest ≡ batch ++ unread (p.take reader n s).1)

list-cases : {A : Type 0} (l : List A) → (l ≡ []) ⊎ ((x : A) × (xs : List A) × (l ≡ x ∷ xs))
list-cases [] = inl refl
list-cases (x ∷ xs) = inr (x, xs, refl)

module _ (k : Channels) (from_slice : Bytes → Attempt Envelope) (topic : String) where
  hand_out_samples-append :
      (batch rest : List (Option DdsEnvelope)) (l : Local k.Inbox)
      → hand_out_samples k from_slice topic (batch ++ rest) l
        ≡ hand_out_samples k from_slice topic rest (hand_out_samples k from_slice topic batch l)
  unfolding hand_out_samples
  hand_out_samples-append [] rest l = refl
  hand_out_samples-append (sample ∷ batch) rest l =
      hand_out_samples-append batch rest (hand_out_sample k from_slice topic sample l)

  module _ (p : Participant) (reader : p.Reader) (cache : Cache p reader) where
    -- For a reader whose `take` returns the oldest of its samples, or NoData if it has none: with more
    -- fuel than the reader has samples that were not taken, a drain ends without an error;
    -- it has handed out all of them, in order, and left none.
    pub drain_reader_lem :
        (fuel : ℕ) (l : Local k.Inbox) (s : p.State)
        → length (cache.unread s) < fuel
        → (s' : p.State) × (drain_reader k from_slice topic p reader fuel (l, s)
            ≡ some (ok tt, (hand_out_samples k from_slice topic (cache.unread s) l, s')))
          × (cache.unread s' ≡ [])
    unfolding drain_reader hand_out_samples
    drain_reader_lem zero l s enough = absurd (omega (arith, enough))
    drain_reader_lem (suc fuel) l s enough = elim (list-cases (cache.unread s)) [
      | inl e ↦
          let (none_left, empty) = cache.take-empty 10 s e in
          ((p.take reader 10 s).1, rw (none_left, e, drain_reader) refl, empty)
      | inr (sample, rest, e) ↦
          let (batch, taken, left) = cache.take-samples 10 s sample rest (omega arith) e in
          let s1 = (p.take reader 10 s).1 in
          let (s', drained, empty) =
            drain_reader_lem fuel (hand_out_samples k from_slice topic (sample ∷ batch) l) s1 (
              omega (
                arith,
                enough,
                ap length e,
                ap length left,
                length-append batch (cache.unread s1),
              )) in
          let whole : cache.unread s ≡ (sample ∷ batch) ++ cache.unread s1 =
            e ∙ ap (λ more. sample ∷ more) left in
          (
            s',
            rw (taken, drain_reader) drained
                ∙ ap (λ out. some (ok tt, (out, s')))
                    (sym (hand_out_samples-append (sample ∷ batch) (cache.unread s1) l)
                      ∙ ap (λ xs. hand_out_samples k from_slice topic xs l) (sym whole)),
            empty,
          )
    ]
