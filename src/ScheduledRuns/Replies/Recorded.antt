-- ===== src/ScheduledRuns/Replies/Recorded.antt =====
-- Which frame the transport keeps.
use agents_universe.Prelude.{
  ◌≡◌, refl, ap, ◌∙◌, Option, none, some, List, [], ◌∷◌, if◌then◌else◌, arith,
}
use agents_universe.Prelude.Text.{Text}
use agents_universe.ScheduledRuns.Replies.{
  EndFrame, Frame, stream_end, error, other, Transport, new_transport, is_real, recorded_real,
  is_none, receive, receive_all,
}

-- The first frame of the turn that ends it with a message of its own.
unfoldable pub first_real : List Frame → Option EndFrame
first_real [] = none
first_real (stream_end e ∷ frames) = if is_real e then some e else first_real frames
first_real (error message ∷ frames) = first_real frames
first_real (other ∷ frames) = first_real frames

unfoldable pub first_end : List Frame → Option EndFrame
first_end [] = none
first_end (stream_end e ∷ frames) = some e
first_end (error message ∷ frames) = first_end frames
first_end (other ∷ frames) = first_end frames

-- The message of the last frame that reports an error.
unfoldable pub last_error : Option Text → List Frame → Option Text
last_error old [] = old
last_error old (stream_end e ∷ frames) = last_error old frames
last_error old (error message ∷ frames) = last_error message frames
last_error old (other ∷ frames) = last_error old frames

unfoldable pub or_else : Option EndFrame → Option EndFrame → Option EndFrame
or_else none f = f
or_else (some e) f = some e

receive_all-end :
    (t : Transport) (frames : List Frame)
    → (receive_all t frames).stream_end ≡ (
        if recorded_real t.stream_end
        then t.stream_end
        else or_else (first_real frames) (or_else t.stream_end (first_end frames)))
unfolding receive_all first_real first_end or_else receive recorded_real is_none
receive_all-end t [] = ground arith
receive_all-end t (stream_end e ∷ frames) =
    ground (arith, receive_all-end (receive t (stream_end e)) frames)
receive_all-end t (error message ∷ frames) = receive_all-end (receive t (error message)) frames
receive_all-end t (other ∷ frames) = receive_all-end t frames

end-error : (t : Transport) (e : EndFrame) → (receive t (stream_end e)).error ≡ t.error
unfolding receive
end-error t e = ground arith

receive_all-error :
    (t : Transport) (frames : List Frame) → (receive_all t frames).error ≡ last_error t.error frames
unfolding receive_all last_error receive
receive_all-error t [] = refl
receive_all-error t (stream_end e ∷ frames) =
    receive_all-error (receive t (stream_end e)) frames
    ∙ ap (λ m. last_error m frames) (end-error t e)
receive_all-error t (error message ∷ frames) = receive_all-error (receive t (error message)) frames
receive_all-error t (other ∷ frames) = receive_all-error t frames

-- Of the frames of a turn the transport keeps the first one that ends it with the id of a message and
-- is no injection; if there is none, the first one that ends anything; and the message of the last
-- error.
pub receive_all_lem :
    (frames : List Frame)
    → ((receive_all new_transport frames).stream_end
        ≡ or_else (first_real frames) (first_end frames))
      × ((receive_all new_transport frames).error ≡ last_error none frames)
unfolding new_transport recorded_real or_else
receive_all_lem frames =
    (receive_all-end new_transport frames, receive_all-error new_transport frames)
