-- ===== src/Chat/Finish/Told.antt =====
-- What a turn of engine/forward/chat.py has published is what its parser has recorded.
use qwarz.Base.{
  ℕ, ◌-◌, refl, Bool, true, false, ◌&&◌, ◌||◌, Bool-cases, inl, inr, Option, List, [], ◌∷◌, ◌++◌,
  drop, init_list, last_or, ◌==◌, if◌then◌else◌,
}
use qwarz.Chat.{Text, push, flush_text}
use qwarz.Chat.Hook.{
  Limits, TurnState, is_reasoning, is_open, reasoning_close, feed_text, count_new, stream_visible,
  hit_budget, close_reasoning, close_if_due, is_cancelled, count_poll, streamed, accept_new,
  on_accepted, accept_all, followed,
}
use qwarz.Chat.Finish.{flushed_with, flushed}
use qwarz.Chat.Finish.Adds.{IsTold, feed_text-IsTold, IsTold-same}

module _ {Schema : Type 0} (limits : Limits) where
  close_reasoning-IsTold :
      (hit_stop : Bool) (produced : List ℕ) (s : TurnState Schema)
      → IsTold s
      → IsTold (close_reasoning limits hit_stop produced s).1
  unfolding close_reasoning
  close_reasoning-IsTold hit_stop produced s told =
      let t : TurnState Schema = record s { seen = if hit_stop then s.seen - 1 else s.seen } in
      IsTold-same (feed_text reasoning_close t) _ refl refl refl refl
        (feed_text-IsTold reasoning_close t (IsTold-same s t refl refl refl refl told))

  close_if_due-IsTold :
      (set hit_stop : Bool) (produced : List ℕ) (s : TurnState Schema)
      → IsTold s
      → IsTold (close_if_due limits set hit_stop produced s).1
  unfolding close_if_due
  close_if_due-IsTold true hit_stop produced s told = told
  close_if_due-IsTold false hit_stop produced s told =
      elim (Bool-cases (
        is_open s.close_reason
        && (is_reasoning s.parser.channel && (hit_budget limits s || hit_stop)))) [
          | inl due ↦ rw due (close_reasoning-IsTold hit_stop produced s told)
          | inr idle ↦ rw idle told
        ]

module _ {Schema : Type 0} (decode : List ℕ → Text) where
  stream_visible-IsTold :
      (visible : List ℕ) (s : TurnState Schema)
      → IsTold s
      → IsTold (stream_visible decode visible s)
  unfolding stream_visible
  stream_visible-IsTold [] s told = told
  stream_visible-IsTold (v ∷ visible) s told =
      let t : TurnState Schema = record s {
        visible = s.visible ++ v ∷ visible;
        text = (push decode (v ∷ visible) s.text).1;
      } in
      feed_text-IsTold (push decode (v ∷ visible) s.text).0 t
        (IsTold-same s t refl refl refl refl told)

  flushed_with-IsTold :
      (visible : List ℕ) (s : TurnState Schema) → IsTold s → IsTold (flushed_with decode visible s)
  unfolding flushed_with
  flushed_with-IsTold [] s told = told
  flushed_with-IsTold (v ∷ visible) s told =
      let t : TurnState Schema = record s { text = (flush_text decode s.text).1 } in
      feed_text-IsTold (flush_text decode s.text).0 t (IsTold-same s t refl refl refl refl told)

  pub flushed-IsTold : (s : TurnState Schema) → IsTold s → IsTold (flushed decode s)
  unfolding flushed
  flushed-IsTold s told = flushed_with-IsTold s.visible s told

module _ {Schema : Type 0} (decode : List ℕ → Text) (limits : Limits)
    (cancel : Option (ℕ → Bool)) where
  accept_new-IsTold :
      (produced new : List ℕ) (s : TurnState Schema)
      → IsTold s
      → IsTold (accept_new decode limits cancel produced new s).1
  unfolding accept_new streamed
  accept_new-IsTold produced [] s told = told
  accept_new-IsTold produced (n ∷ new) s told =
      let hit_stop = last_or 0 (n ∷ new) == limits.stop in
      let visible = if hit_stop then init_list (n ∷ new) else n ∷ new in
      let counted = count_new (n ∷ new) s in
      let t = streamed decode limits cancel produced (n ∷ new) hit_stop s in
      let shown_now =
        stream_visible-IsTold decode visible counted
          (unfold count_new in IsTold-same s counted refl refl refl refl told) in
      close_if_due-IsTold limits (is_cancelled cancel t.polls) hit_stop produced
        (record t { polls = count_poll cancel t.polls })
        (IsTold-same (stream_visible decode visible counted) _ refl refl refl refl shown_now)

  pub accept_all-IsTold :
      (windows : List (List ℕ)) (produced : List ℕ) (s : TurnState Schema)
      → IsTold s
      → IsTold (accept_all decode limits cancel windows produced s).2
  unfolding accept_all on_accepted
  accept_all-IsTold [] produced s told = told
  accept_all-IsTold (new ∷ windows) produced s told =
      let (directive, t) = on_accepted decode limits cancel (produced ++ new) s in
      accept_all-IsTold windows (followed directive (produced ++ new)) t
        (accept_new-IsTold (produced ++ new) (drop s.seen (produced ++ new)) s told)
