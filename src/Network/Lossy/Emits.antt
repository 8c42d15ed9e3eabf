-- ===== src/Network/Lossy/Emits.antt =====
-- What is published, after a response if there is one.
use mom_rpc.Base.{All-append, All, ◌∷◌, [], List, some, none, Option, subst, sym, refl, ◌≡◌}
use mom_rpc.Domain.{Envelope}
use mathlib.Core.List.{Memᴰ}
use mathlib.Core.List.Memᴰ
use mathlib.Core.Option.{some-injective}
use mom_rpc.Network.{emit}

pub new_envelope :
    (published : List Envelope) (e : Option Envelope) (x : Envelope)
    → e ≡ some x
    → Memᴰ x (emit e published)
new_envelope published none x h = absurd (cc)
new_envelope published (some y) x h =
    Memᴰ.append_right published (Memᴰ.head (sym (some-injective _ _ h)))

pub old_envelope :
    (published : List Envelope) (e : Option Envelope) (x : Envelope)
    → Memᴰ x published
    → Memᴰ x (emit e published)
old_envelope published none x m = m
old_envelope published (some y) x m = Memᴰ.append_left (y ∷ []) m

pub emit-All :
    (P : Envelope → Type 0) (e : Option Envelope) (l : List Envelope)
    → ((x : Envelope) → e ≡ some x → P x)
    → All P l
    → All P (emit e l)
emit-All P none l good v = v
emit-All P (some x) l good v = All-append P l (x ∷ []) v (good x refl, tt)

pub All-member :
    (P : Envelope → Type 0) (e : Envelope) (l : List Envelope) → All P l → Memᴰ e l → P e
All-member P e [] p m = elim m [ ]
All-member P e (x ∷ l) (p, ps) (Memᴰ.head same) = subst P (sym same) p
All-member P e (x ∷ l) (p, ps) (Memᴰ.tail m) = All-member P e l ps m
