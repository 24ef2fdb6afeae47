-- ===== src/Waiting/Listener.antt =====
-- listener.go: Load and Unload of a listener, which send into its channel and may wait.
use graphvent.Prelude.{
  ℕ, ◌+◌, ◌-◌, ◌<◌, ◌≤◌, ◌≡◌, refl, ap, ◌∙◌, Bool, true, false, List, [], ◌∷◌, ◌++◌, ◌⊎◌, inl, inr,
  Option, none, some, take, take_all, length, ltb, ltb→lt, min, if◌then◌else◌, Bool-cases,
  length-take, arith,
}
use graphvent.Serialize.Reading.{if_true, if_false}
use graphvent.Signal.{Uuid, Signal, loaded, unloaded}
use graphvent.Waiting.{ListenerExt, new_listener_ext, listener_process, process_all}
use graphvent.Waiting.Response.{process_all-keeps}

-- A send, which waits when the channel is full: then there is no result until someone reads.
unfoldable pub send_to : Signal → ListenerExt → Option ListenerExt
send_to signal ext =
    if ltb (length ext.chan) ext.buffer
    then some (record ext { chan = ext.chan ++ some signal ∷ [] })
    else none

-- `Load`, with the ID of the LoadedSignal: a new channel, which no one reads yet.
unfoldable pub load_listener : Uuid → ListenerExt → Option ListenerExt
unfolding send_to
load_listener id ext = send_to (loaded id) (new_listener_ext ext.buffer)

-- `Unload`, behind which the channel is closed.
unfoldable pub unload_listener : Uuid → ListenerExt → Option ListenerExt
unfolding send_to
unload_listener id ext = send_to (unloaded id) ext

buffer-process_all :
    (signals : List (Option Signal)) (ext : ListenerExt)
    → (process_all signals ext).buffer ≡ ext.buffer
unfolding process_all listener_process
buffer-process_all [] ext = refl
buffer-process_all (s ∷ signals) ext =
    buffer-process_all signals (listener_process s ext) ∙ one (ltb (length ext.chan) ext.buffer)
  where
    one :
        (b : Bool)
        → (if b then record ext { chan = ext.chan ++ s ∷ [] } else ext).buffer ≡ ext.buffer
    one true = refl
    one false = refl

-- The listener behind Load and some signals, if no one reads.
abbrev pub loaded_with : Uuid → ℕ → List (Option Signal) → ListenerExt
loaded_with id buffer signals =
    process_all signals (record { buffer = buffer; chan = some (loaded id) ∷ [] })

loaded_chan :
    (id : Uuid) (buffer : ℕ) (signals : List (Option Signal))
    → 0 < buffer
    → (loaded_with id buffer signals).chan ≡ some (loaded id) ∷ take (buffer - 1) signals
loaded_chan id buffer signals room =
    process_all-keeps signals (record { buffer = buffer; chan = some (loaded id) ∷ [] })
      (omega arith)

-- Load of a listener with a buffer of 0 waits until someone reads the channel that it has just made.
-- With a larger one it returns; if then no one reads, Unload waits forever when the signals that
-- came fill the channel, and else the channel is left with the LoadedSignal, those signals and the
-- UnloadedSignal.
pub unread_listener-cases :
    (first last : Uuid) (ext : ListenerExt) (signals : List (Option Signal))
    → ((load_listener first ext ≡ none) × (ext.buffer ≡ 0))
      ⊎ ((load_listener first ext ≡ some (loaded_with first ext.buffer []))
          × (((unload_listener last (loaded_with first ext.buffer signals) ≡ none)
                × (ext.buffer ≤ 1 + length signals))
              ⊎ ((left : ListenerExt) × (unload_listener last (loaded_with first ext.buffer signals)
                    ≡ some left)
                  × (left.chan ≡ some (loaded first) ∷ signals ++ some (unloaded last) ∷ [])
                  × (1 + length signals < ext.buffer))))
unfolding load_listener unload_listener process_all
unread_listener-cases first last ext signals = elim (Bool-cases (ltb 0 ext.buffer)) [
  | inr full ↦ inl (if_false _ _ _ full, ground (arith, full))
  | inl free ↦
      let room : 0 < ext.buffer = ltb→lt 0 ext.buffer free in inr (if_true _ _ _ free, ends room)
]
  where
    end : ListenerExt
    end = loaded_with first ext.buffer signals

    ltb_false :
        (n m : ℕ)
        → ltb n m ≡ false
        → n ≡ 1 + min (ext.buffer - 1) (length signals)
        → m ≡ ext.buffer
        → ext.buffer ≤ 1 + length signals
    ltb_false n m h e f = ground arith

    fits :
        {n m : ℕ}
        → n < m
        → n ≡ 1 + min (ext.buffer - 1) (length signals)
        → m ≡ ext.buffer
        → length signals ≤ ext.buffer - 1
    fits h e f = omega arith

    below :
        {n m : ℕ}
        → n < m
        → n ≡ 1 + min (ext.buffer - 1) (length signals)
        → m ≡ ext.buffer
        → 1 + length signals < ext.buffer
    below h e f = omega arith

    ends :
        0 < ext.buffer
        → ((send_to (unloaded last) end ≡ none) × (ext.buffer ≤ 1 + length signals))
          ⊎ ((left : ListenerExt) × (send_to (unloaded last) end ≡ some left)
              × (left.chan ≡ some (loaded first) ∷ signals ++ some (unloaded last) ∷ [])
              × (1 + length signals < ext.buffer))
    ends room =
        let chan = loaded_chan first ext.buffer signals room in
        let long : length end.chan ≡ 1 + min (ext.buffer - 1) (length signals) =
          ap length chan ∙ omega (arith, length-take (ext.buffer - 1) signals) in
        let same : end.buffer ≡ ext.buffer = buffer-process_all signals _ in
        elim (Bool-cases (ltb (length end.chan) end.buffer)) [
          | inr full ↦
              inl (if_false _ _ _ full, ltb_false (length end.chan) end.buffer full long same)
          | inl free ↦ inr (
            record end { chan = end.chan ++ some (unloaded last) ∷ [] },
            if_true _ _ _ free,
            ap (λ l. l ++ some (unloaded last) ∷ []) chan
                ∙ ap (λ l. some (loaded first) ∷ l ++ some (unloaded last) ∷ [])
                    (take_all (ext.buffer - 1) signals (fits (ltb→lt _ _ free) long same)),
            below (ltb→lt _ _ free) long same,
          )
        ]
