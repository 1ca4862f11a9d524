-- ===== src/Audio/Jitter/Tests.antt =====
-- A jitter buffer on a few packets.
use vo_ipc.Prelude.{ℕ, ◌≡◌, refl, some, List, [], ◌∷◌, false, arith}
use vo_ipc.Prelude.Bytes.{Bytes}
use vo_ipc.Prelude.Maps.{lookup}
use vo_ipc.Audio.Jitter.{JitterBuffer, ready, new, push}
use vo_ipc.Audio.Jitter.Valid.{IsValid, new-IsValid, push-IsValid}
use vo_ipc.Audio.Jitter.Playback.{Op, pushes, pops, run, Numbered, run_in_order, pop_times}
use vo_ipc.Audio.Jitter.Reorder.{push_all, play_in_order}

abbrev IsOwn : ℕ → Bytes → Type 0
IsOwn n d = d ≡ n ∷ []

abbrev going : JitterBuffer
going = record {
  buffer = [];
  next_seq = some 5;
  target_delay = 2;
  buffering = false;
  max_buffer = 8;
}

abbrev calls : List Op
calls = pushes 6 (6 ∷ []) ∷ pops ∷ pops ∷ []

going-IsValid : IsValid going
going-IsValid = record {
  sorted = tt;
  bounded = omega arith;
  keys_fit = tt;
  next_fits = omega arith;
}

empty-given : (k : ℕ) (d : Bytes) → lookup k going.buffer ≡ some d → IsOwn k d
unfolding lookup
empty-given k d h = absurd (ground arith)

run_in_order_example : Numbered IsOwn 5 (run going calls)
run_in_order_example =
    run_in_order IsOwn 5 going calls (record { going = refl; expects = refl }) going-IsValid
      empty-given ((refl, omega arith), (tt, (tt, tt)))

play_in_order_example :
    (pop_times 2 (push_all (new 2) ((6, 1 ∷ []) ∷ (5, 2 ∷ []) ∷ []))).1
    ≡ some (ready (2 ∷ [])) ∷ some (ready (1 ∷ [])) ∷ []
play_in_order_example =
    play_in_order 2 5 (2 ∷ []) ((1 ∷ []) ∷ []) ((6, 1 ∷ []) ∷ (5, 2 ∷ []) ∷ []) (omega arith)
      (omega arith) (omega arith) (omega arith, (omega arith, tt)) (refl, (refl, tt))

push-IsValid_example : IsValid (push (new 2) 5 (1 ∷ []))
push-IsValid_example = push-IsValid (new 2) 5 (1 ∷ []) (omega arith) (new-IsValid 2)
