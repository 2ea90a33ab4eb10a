-- ===== src/Tunnel/Views.antt =====
-- What the steps of the gateway (internal/tunnel/gateway.go) change of the pending requests.
use mathlib.Core.Path.{◌≡◌, refl, sym}
use mathlib.Core.Logic.{inl, inr}
use mathlib.Core.Bool.{Bool, true, false, ◌&&◌}
use mathlib.Core.Option.{Option, none, some}
use mathlib.Core.List.{List, [], ◌∷◌}
use ch_ui.Prelude.Tests.{if◌then◌else◌, Bool-cases}
use ch_ui.Prelude.Text.{Text, same, same→eq, same_sym}
use ch_ui.Prelude.Maps.{lookup, insert, delete, lookup-insert, lookup-delete}
use ch_ui.Tunnel.Gateway.{
  Kind, stream, Channels, ConnectedTunnel, Gateway, channels_of, set_channels, drop_pending,
  kind_in,
}

-- The kind of a request that is pending at a connection.
abbrev pub kind_at : Gateway → Text → Text → Option Kind
kind_at g conn_id id = kind_in id (lookup conn_id g.tunnels)

pub channels_of_set :
    (g : Gateway) (id : Text) (c : Channels) (j : Text)
    → channels_of (set_channels id c g) j ≡ (if same id j then c else channels_of g j)
unfolding channels_of
channels_of_set g id c j = elim (Bool-cases (same id j)) [
  | inl e ↦ rw (lookup-insert id j c g.channels, e) refl
  | inr e ↦ rw (lookup-insert id j c g.channels, e) refl
]

pub kind_in-insert :
    (tunnels : List (Text × ConnectedTunnel)) (conn_id k id : Text) (t : ConnectedTunnel)
    → kind_in id (lookup k (insert conn_id t tunnels))
      ≡ (if same conn_id k then lookup id t.pending else kind_in id (lookup k tunnels))
unfolding kind_in
kind_in-insert tunnels conn_id k id t = elim (Bool-cases (same conn_id k)) [
  | inl e ↦ rw (lookup-insert conn_id k t tunnels, e) refl
  | inr e ↦ rw (lookup-insert conn_id k t tunnels, e) refl
]

pub kind_in-delete :
    (tunnels : List (Text × ConnectedTunnel)) (conn_id k id : Text)
    → kind_in id (lookup k (delete conn_id tunnels))
      ≡ (if same conn_id k then none else kind_in id (lookup k tunnels))
unfolding kind_in
kind_in-delete tunnels conn_id k id = elim (Bool-cases (same conn_id k)) [
  | inl e ↦ rw (lookup-delete conn_id k tunnels, e) refl
  | inr e ↦ rw (lookup-delete conn_id k tunnels, e) refl
]

-- After a request is taken out of the tunnel that has it.
pub kind_at-drop :
    (g : Gateway) (conn_id id k j : Text) (t : ConnectedTunnel)
    → lookup conn_id g.tunnels ≡ some t
    → kind_at (drop_pending conn_id id t g) k j
      ≡ (if same conn_id k && same id j then none else kind_at g k j)
unfolding kind_in
kind_at-drop g conn_id id k j t found = elim (Bool-cases (same conn_id k)) [
  | inl e ↦
      let found' : lookup k g.tunnels ≡ some t = rw (same→eq conn_id k e) at found in
      rw
        (
          kind_in-insert g.tunnels conn_id k j (record t { pending = delete id t.pending }),
          e,
          found',
          lookup-delete id j t.pending,
        )
        refl
  | inr e ↦
      rw (lookup-insert conn_id k (record t { pending = delete id t.pending }) g.tunnels, e) refl
]

-- The keys of a map are distinct.
abbrev pub Distinct : List (Text × Kind) → Type 0
Distinct [] = Unit
Distinct ((id, kind) ∷ m) = (lookup id m ≡ none) × Distinct m

ite_none : (b : Bool) (o : Option Kind) → o ≡ none → (if b then none else o) ≡ none
ite_none true o h = refl
ite_none false o h = h

lookup-delete_missing :
    (id j : Text) (m : List (Text × Kind)) → lookup j m ≡ none → lookup j (delete id m) ≡ none
lookup-delete_missing id j m h = rw (lookup-delete id j m) (ite_none (same id j) (lookup j m) h)

pub delete-Distinct : (id : Text) (m : List (Text × Kind)) → Distinct m → Distinct (delete id m)
unfolding delete
delete-Distinct id [] h = tt
delete-Distinct id ((j, kind) ∷ m) (fresh, rest) = elim (Bool-cases (same j id)) [
  | inl e ↦ rw e (delete-Distinct id m rest)
  | inr e ↦ rw e (lookup-delete_missing id j m fresh, delete-Distinct id m rest)
]

pub insert-Distinct :
    (id : Text) (kind : Kind) (m : List (Text × Kind)) → Distinct m → Distinct (insert id kind m)
unfolding insert lookup
insert-Distinct id kind [] h = (refl, tt)
insert-Distinct id kind ((j, old) ∷ m) (fresh, rest) = elim (Bool-cases (same j id)) [
  | inl e ↦ rw e (rw (sym (same→eq j id e)) fresh, rest)
  | inr e ↦ rw e (fresh_insert e, insert-Distinct id kind m rest)
]
  where
    fresh_insert : same j id ≡ false → lookup j (insert id kind m) ≡ none
    fresh_insert e = rw (lookup-insert id j kind m, same_sym id j, e) fresh

-- A request is pending at one connection at most, and the chunks of a pending stream are open.
pub record WellFormed (g : Gateway) : Type 0 where
  pub alone :
      (k l id : Text) (a b : Kind)
      → kind_at g k id ≡ some a
      → kind_at g l id ≡ some b
      → same k l ≡ true
  pub streaming : (k id : Text) → kind_at g k id ≡ some stream → (channels_of g id).closed ≡ false
  pub distinct : (k : Text) (t : ConnectedTunnel) → lookup k g.tunnels ≡ some t → Distinct t.pending
