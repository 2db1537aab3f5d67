-- ===== src/Transport/Actor/Outgoing/Opening.antt =====
-- New streams: the arm of `OpenStream` in src/transport/actor/event_loop.rs.
use mathlib.Core.Path.{subst}
use zetta_transport.Common.{
  ℕ, ◌+◌, ◌%◌, ◌≤◌, ◌<◌, ◌^◌, ◌-◌, ◌≡◌, ◌⊎◌, inl, inr, refl, sym, arith, Bool, [], ◌∷◌, none, ltb,
  leb, if◌then◌else◌, if_holds, All,
}
use zetta_transport.Error.{Result, ok, err, ZtError}
use zetta_transport.Transport.StreamType.{StreamType}
use zetta_transport.Transport.StreamState.{StreamState, Streams, get_stream, add_stream}
use zetta_transport.Crypto.{CryptoEngine}
use zetta_transport.Protocol.Wire.{Buf}
use zetta_transport.Protocol.Frame
use zetta_transport.Transport.Actor.{Actor}
use zetta_transport.Transport.Actor.Control.{send_frame_immediate}
use zetta_transport.Transport.Actor.Outgoing.Keeping.{numbering, send_frame-numbering}
use zetta_transport.Transport.Actor.Outgoing.{is_receive_only, opened_count, open_stream}

-- Every stream of the parity `p` has an identifier below `n`.
abbrev pub Below : (p n : ℕ) → Streams → Type 0
Below p n = All (λ s. (s.0 % 2 ≡ p) → s.0 < n)

get_stream-Below :
    (p n : ℕ) (streams : Streams) → Below p n streams → n % 2 ≡ p → get_stream streams n ≡ none
get_stream-Below p n [] h e = refl
get_stream-Below p n (s ∷ streams) h e = ground (arith, get_stream-Below p n streams h.1 e, h.0)

add-Below :
    (p n : ℕ) (streams : Streams) (new : StreamState)
    → Below p n streams
    → Below p (n + 2) (add_stream streams n new)
add-Below p n [] new h = (λ e. omega arith, tt)
add-Below p n (s ∷ streams) new h = (λ e. omega (arith, h.0 e), add-Below p n streams new h.1)

opened_count-add :
    (p n : ℕ) (streams : Streams) (new : StreamState)
    → n % 2 ≡ p
    → opened_count p (add_stream streams n new) ≡ opened_count p streams + 1
opened_count-add p n [] new e = ground arith
opened_count-add p n (s ∷ streams) new e = ground (arith, opened_count-add p n streams new e)

-- The next identifier has this side's parity, and those in use are below it.
pub record NumberedBy (parity next_stream_id : ℕ) (streams : Streams) : Type 0 where
  pub own : next_stream_id % 2 ≡ parity
  pub below : Below parity next_stream_id streams

-- The parity of the identifiers that a side opens.
abbrev pub parity_of : (is_client : Bool) → ℕ
parity_of is_client = if is_client then 0 else 1

module _ {C K F : Type 0} ⦃engine : CryptoEngine K⦄ ⦃buf : Buf⦄ where
  abbrev pub Numbered : Actor C K F → Type 0
  Numbered a = NumberedBy (parity_of a.is_client) a.next_stream_id (a.state).streams

  -- Refused, with the streams as they were, or opened.
  abbrev pub Opened : Actor C K F → Result ℕ × Actor C K F → Type 0
  Opened a r =
      let parity = parity_of a.is_client in
      Numbered r.1
      × (((e : ZtError) × (r.0 ≡ err e) × (numbering r.1 ≡ numbering a))
          ⊎ ((id : ℕ) × (r.0 ≡ ok id)
              × (id % 2 ≡ parity)
              × (get_stream (a.state).streams id ≡ none)
              × (opened_count parity ((r.1).state).streams ≤ ((r.1).state).peer_max_streams)))

  blocked-Opened :
      (a b : Actor C K F) (e : ZtError)
      → Numbered a
      → numbering b ≡ numbering a
      → Opened a (err e, b)
  blocked-Opened a b e v same = (
    subst (λ (n : Bool × ℕ × Streams). NumberedBy (parity_of n.0) n.1 n.2) (sym same) v,
    inl (e, refl, same),
  )

  granted-Opened :
      (new : StreamState) (a : Actor C K F)
      → Numbered a
      → opened_count (parity_of a.is_client) (a.state).streams < (a.state).peer_max_streams
      → Opened a (
        ok a.next_stream_id,
        record a {
          next_stream_id = a.next_stream_id + 2;
          state = record a.state { streams = add_stream (a.state).streams a.next_stream_id new };
        },
      )
  granted-Opened new a v room =
      let parity = parity_of a.is_client in
      (
        record {
          own = omega (arith, v.own);
          below = add-Below parity a.next_stream_id (a.state).streams new v.below;
        },
        inr (
          a.next_stream_id,
          refl,
          v.own,
          get_stream-Below parity a.next_stream_id (a.state).streams v.below v.own,
          omega (arith, opened_count-add parity a.next_stream_id (a.state).streams new v.own, room),
        ),
      )

  -- Opening a stream fails and changes neither the streams nor their numbering, or gives an identifier
  -- of this side's parity that no stream has, and leaves no more of this side's streams open than the
  -- peer allows. Either way, the next identifier stays above those in use.
  pub open_stream-Opened :
      (now : ℕ) (stream_type : StreamType) (a : Actor C K F)
      → Numbered a
      → Opened a (open_stream now stream_type a)
  unfolding open_stream
  open_stream-Opened now stream_type a v =
      let limit = (a.state).peer_max_streams in
      if_holds (Opened a) (is_receive_only stream_type) (λ e. blocked-Opened a a _ v refl)
        (λ both.
          if_holds (Opened a) (leb limit (opened_count (parity_of a.is_client) (a.state).streams))
            (λ e.
              blocked-Opened a
                (send_frame_immediate (Frame.streams_blocked limit) (a.state).addr a).1 _ v
                (send_frame-numbering (Frame.streams_blocked limit) (a.state).addr a))
            (λ room.
              if_holds (Opened a) (ltb (2 ^ 32 - 1) (a.next_stream_id + 2))
                (λ e. blocked-Opened a a _ v refl) (λ more. granted-Opened _ a v (ground arith))))
