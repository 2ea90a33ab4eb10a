-- ===== src/Tunnel/Reject.antt =====
-- The loop of `handleDisconnect` (internal/tunnel/gateway.go) over the pending requests.
use mathlib.Core.Path.{◌≡◌, refl, sym, ap, ◌∙◌}
use mathlib.Core.Logic.{inl, inr}
use mathlib.Core.Bool.{Bool, true, false}
use mathlib.Core.Option.{Option, none, some}
use mathlib.Core.List.{List, [], ◌∷◌}
use ch_ui.Prelude.Tests.{Bool-cases}
use ch_ui.Prelude.Text.{Text, codes, same, same→eq, same_sym}
use ch_ui.Prelude.Maps.{lookup}
use ch_ui.Tunnel.Gateway.{
  Kind, plain, stream, Channels, Gateway, finished, channels_of, set_channels, put_error, offer,
  close_stream,
}
use ch_ui.Tunnel.Auth.{reject, reject_all, then_step}
use ch_ui.Tunnel.Views.{Distinct, channels_of_set}

abbrev pub is_some {ℓ} : {A : Type ℓ} → Option A → Bool
is_some none = false
is_some (some a) = true

-- The chunks of the streams of a map are open.
abbrev pub IsOpen : Gateway → List (Text × Kind) → Type 0
IsOpen g [] = Unit
IsOpen g ((id, plain) ∷ m) = IsOpen g m
IsOpen g ((id, stream) ∷ m) = ((channels_of g id).closed ≡ false) × IsOpen g m

IsOpen-set :
    (g : Gateway) (id : Text) (c : Channels) (m : List (Text × Kind))
    → lookup id m ≡ none
    → IsOpen g m
    → IsOpen (set_channels id c g) m
unfolding lookup
IsOpen-set g id c [] h opened = tt
IsOpen-set g id c ((j, plain) ∷ m) h opened = elim (Bool-cases (same j id)) [
  | inl e ↦ (let bad : some plain ≡ none = rw e at h in cc)
  | inr e ↦ IsOpen-set g id c m (rw e at h) opened
]
IsOpen-set g id c ((j, stream) ∷ m) h (first, opened) = elim (Bool-cases (same j id)) [
  | inl e ↦ (let bad : some stream ≡ none = rw e at h in cc)
  | inr e ↦ (
    rw (channels_of_set g id c j, same_sym id j, e) first,
    IsOpen-set g id c m (rw e at h) opened,
  )
]

offer-some : (o : Option Text) (e : Text) → is_some (offer o e) ≡ true
unfolding offer
offer-some none e = refl
offer-some (some d) e = refl

-- One request is told, and nothing else changes.
reject_plain :
    (id : Text) (g : Gateway)
    → (c : Channels) × (reject id plain g ≡ finished (set_channels id c g))
      × (is_some c.error ≡ true)
unfolding reject
reject_plain id g = (_, refl, offer-some (channels_of g id).error (codes "tunnel disconnected"))

reject_stream :
    (id : Text) (g : Gateway)
    → (channels_of g id).closed ≡ false
    → (c : Channels) × (reject id stream g ≡ finished (set_channels id c g))
      × (is_some c.error ≡ true)
unfolding reject close_stream
reject_stream id g h = (
  put_error (codes "tunnel disconnected") (record (channels_of g id) { closed = true }),
  rw h refl,
  offer-some (channels_of g id).error (codes "tunnel disconnected"),
)

-- All requests of a map are told, and the channels of no other request change.
pub record Rejected (m : List (Text × Kind)) (g h : Gateway) : Type 0 where
  pub tunnels : h.tunnels ≡ g.tunnels
  pub others : (j : Text) → lookup j m ≡ none → channels_of h j ≡ channels_of g j
  pub told : (j : Text) → is_some (lookup j m) ≡ true → is_some (channels_of h j).error ≡ true

Rejected-cons :
    (id : Text) (kind : Kind) (m : List (Text × Kind)) (g h : Gateway) (c : Channels)
    → lookup id m ≡ none
    → is_some c.error ≡ true
    → Rejected m (set_channels id c g) h
    → Rejected ((id, kind) ∷ m) g h
unfolding lookup
Rejected-cons id kind m g h c fresh error r = record {
  tunnels = r.tunnels;
  others = other;
  told = tell;
}
  where
    other : (j : Text) → lookup j ((id, kind) ∷ m) ≡ none → channels_of h j ≡ channels_of g j
    other j e = elim (Bool-cases (same id j)) [
      | inl hit ↦ (let bad : some kind ≡ none = rw hit at e in cc)
      | inr miss ↦
          (let e' : lookup j m ≡ none = rw miss at e in
            r.others j e' ∙ rw (channels_of_set g id c j, miss) refl)
    ]

    tell :
        (j : Text)
        → is_some (lookup j ((id, kind) ∷ m)) ≡ true
        → is_some (channels_of h j).error ≡ true
    tell j e = elim (Bool-cases (same id j)) [
      | inl hit ↦
          rw (r.others j (rw (sym (same→eq id j hit)) fresh), channels_of_set g id c j, hit) error
      | inr miss ↦ r.told j (rw miss at e)
    ]

told_nil : (j : Text) (b : Bool) → is_some (lookup {V = Kind} j []) ≡ true → b ≡ true
unfolding lookup
told_nil j b h = cc

pub reject_all-Rejected :
    (m : List (Text × Kind)) (g : Gateway)
    → Distinct m
    → IsOpen g m
    → (h : Gateway) × (reject_all m g ≡ finished h) × Rejected m g h
unfolding reject_all then_step
reject_all-Rejected [] g d o = (
  g,
  refl,
  record {
    tunnels = refl;
    others = λ j e. refl;
    told = λ j e. told_nil j (is_some (channels_of g j).error) e;
  },
)
reject_all-Rejected ((id, plain) ∷ m) g (fresh, d) o =
    let (c, e, error) = reject_plain id g in
    let (h, run, r) = reject_all-Rejected m (set_channels id c g) d (IsOpen-set g id c m fresh o) in
    (h, ap (λ o. then_step o (reject_all m)) e ∙ run, Rejected-cons id plain m g h c fresh error r)
reject_all-Rejected ((id, stream) ∷ m) g (fresh, d) (first, o) =
    let (c, e, error) = reject_stream id g first in
    let (h, run, r) = reject_all-Rejected m (set_channels id c g) d (IsOpen-set g id c m fresh o) in
    (h, ap (λ o. then_step o (reject_all m)) e ∙ run, Rejected-cons id stream m g h c fresh error r)
