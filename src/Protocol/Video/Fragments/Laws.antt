-- ===== src/Protocol/Video/Fragments/Laws.antt =====
-- crates/voipc-protocol/src/video.rs: the packets of `fragment_frame` in the assembler.
use vo_ipc.Prelude.{
  ℕ, zero, suc, ◌+◌, ◌*◌, ◌%◌, ◌<◌, ◌≤◌, ◌≡◌, refl, ap, subst, ◌∙◌, some, List, [], ◌∷◌, ◌++◌,
  length, get_elem?, take, drop, take-append-drop, length-take, length-drop, length-append, All,
  Bool, true, false, ◌||◌, ◌==◌, min, arith,
}
use mathlib.Core.List.{append_assoc}
use vo_ipc.Prelude.Bytes.{Bytes}
use vo_ipc.Protocol.Video.Kind.{is_keyframe}
use vo_ipc.Protocol.Video.Packet.{fragment}
use vo_ipc.Protocol.Video.Fragments.{chunks, chunks_fuel, number_fragments, fragment_frame}
use vo_ipc.Protocol.Video.Assembler.{FrameAssembler, feed}
use vo_ipc.Protocol.Video.Assembler.Slots.{concat}
use vo_ipc.Protocol.Video.Assembler.Progress.{IsFragmentOf}
use vo_ipc.Protocol.Video.Assembler.Reassembly.{Distinct, IsReady, feed_frame}

concat-chunks_fuel :
    (f n : ℕ) (bs : Bytes) → 0 < n → length bs ≤ f → concat (chunks_fuel f n bs) ≡ bs
unfolding chunks_fuel
concat-chunks_fuel zero n [] h k = refl
concat-chunks_fuel zero n (b ∷ bs) h k = absurd (omega arith)
concat-chunks_fuel (suc f) n [] h k = refl
concat-chunks_fuel (suc f) n (b ∷ bs) h k =
    rw (concat-chunks_fuel f n (drop n (b ∷ bs)) h (omega (arith, length-drop n (b ∷ bs))))
      (take-append-drop n (b ∷ bs))

-- The chunks put together are the frame, in order and with nothing lost.
pub concat-chunks : (n : ℕ) (bs : Bytes) → 0 < n → concat (chunks n bs) ≡ bs
unfolding chunks
concat-chunks n bs h = concat-chunks_fuel (length bs) n bs h (omega arith)

chunks_fuel_count : (f n k : ℕ) (bs : Bytes) → length bs ≤ k * n → length (chunks_fuel f n bs) ≤ k
unfolding chunks_fuel
chunks_fuel_count zero n k bs h = omega arith
chunks_fuel_count (suc f) n k [] h = omega arith
chunks_fuel_count (suc f) n zero (b ∷ bs) h = absurd (omega arith)
chunks_fuel_count (suc f) n (suc k) (b ∷ bs) h =
    omega (arith, chunks_fuel_count f n k (drop n (b ∷ bs)) (omega (arith, length-drop n (b ∷ bs))))

chunk_fuel_size : (f n : ℕ) (bs : Bytes) → All (λ c. length c ≤ n) (chunks_fuel f n bs)
unfolding chunks_fuel
chunk_fuel_size zero n bs = tt
chunk_fuel_size (suc f) n [] = tt
chunk_fuel_size (suc f) n (b ∷ bs) =
    (omega (arith, length-take n (b ∷ bs)), chunk_fuel_size f n (drop n (b ∷ bs)))

-- A frame of at most `k * n` bytes has at most `k` chunks of `n` bytes.
pub length-chunks : (n k : ℕ) (bs : Bytes) → length bs ≤ k * n → length (chunks n bs) ≤ k
unfolding chunks
length-chunks n k bs h = chunks_fuel_count (length bs) n k bs h

some_chunk : (n : ℕ) (bs : Bytes) → 0 < length bs → 0 < length (chunks n bs)
unfolding chunks chunks_fuel
some_chunk n [] h = absurd (omega arith)
some_chunk n (b ∷ bs) h = omega arith

get_elem?-append :
    {A : Type 0} (xs ys : List A) (y : A) → get_elem? (xs ++ (y ∷ ys)) (length xs) ≡ some y
get_elem?-append [] ys y = refl
get_elem?-append (x ∷ xs) ys y = get_elem?-append xs ys y

module _ (key : Bool) (sid tok frame time count : ℕ) where
  later_indices :
      (i j : ℕ) (rest : List Bytes)
      → i < j
      → j + length rest ≤ 256
      → All
          (λ q. (q.fragment_index == i) ≡ false)
          (number_fragments key sid tok frame count time j rest)
  unfolding number_fragments
  later_indices i j [] h k = tt
  later_indices i j (c ∷ rest) h k =
      (ground arith, later_indices i (suc j) rest (omega arith) (omega arith))

  number_fragments-Distinct :
      (i : ℕ) (rest : List Bytes)
      → i + length rest ≤ 256
      → Distinct (number_fragments key sid tok frame count time i rest)
  unfolding number_fragments
  number_fragments-Distinct i [] h = tt
  number_fragments-Distinct i (c ∷ rest) h =
      let e : i % 256 ≡ i = omega arith in
      (
        rw e (later_indices i (suc i) rest (omega arith) (omega arith)),
        number_fragments-Distinct (suc i) rest (omega arith),
      )

  length-number_fragments :
      (i : ℕ) (rest : List Bytes)
      → length (number_fragments key sid tok frame count time i rest) ≡ length rest
  unfolding number_fragments
  length-number_fragments i [] = refl
  length-number_fragments i (c ∷ rest) = ap suc (length-number_fragments (suc i) rest)

fragment-kind :
    (key : Bool) (sid tok frame i n time : ℕ) (b : Bytes)
    → is_keyframe (fragment key sid tok frame i n time b).packet_type ≡ key
unfolding fragment
fragment-kind true sid tok frame i n time b = refl
fragment-kind false sid tok frame i n time b = refl

-- The same packets, with the chunks before them regrouped.
renumbered :
    (key : Bool) (sid tok frame time : ℕ) (before : List Bytes) (c : Bytes) (rest : List Bytes)
    → length (before ++ (c ∷ [])) ≡ suc (length before)
    → All (IsFragmentOf frame ((before ++ (c ∷ [])) ++ rest) key) (
        number_fragments key sid tok frame
          (length ((before ++ (c ∷ [])) ++ rest))
          time
          (length (before ++ (c ∷ [])))
          rest)
    → All (IsFragmentOf frame (before ++ (c ∷ rest)) key) (
        number_fragments key sid tok frame
          (length (before ++ (c ∷ rest)))
          time
          (suc (length before))
          rest)
renumbered key sid tok frame time before c rest n h =
    subst
      (λ cs.
        All (IsFragmentOf frame cs key)
          (number_fragments key sid tok frame (length cs) time (suc (length before)) rest))
      (append_assoc before (c ∷ []) rest)
      (subst
        (λ k.
          All (IsFragmentOf frame ((before ++ (c ∷ [])) ++ rest) key) (
            number_fragments key sid tok frame (length ((before ++ (c ∷ [])) ++ rest)) time k rest))
        n h)

number_fragments-IsFragmentOf :
    (key : Bool) (sid tok frame time : ℕ) (before rest : List Bytes)
    → length before + length rest ≤ 255
    → All
        (IsFragmentOf frame (before ++ rest) key)
        (number_fragments key sid tok frame (length (before ++ rest)) time (length before) rest)
unfolding number_fragments fragment
number_fragments-IsFragmentOf key sid tok frame time before [] h = tt
number_fragments-IsFragmentOf key sid tok frame time before (c ∷ rest) h = (
  record {
    of_frame = refl;
    of_count = refl;
    of_chunk =
        let e : length before % 256 ≡ length before = omega arith in
        rw e (get_elem?-append before rest c);
    of_kind = fragment-kind key sid tok frame 0 0 time c;
  },
  let n : length (before ++ (c ∷ [])) ≡ suc (length before) =
        omega (arith, length-append before (c ∷ [])) in
      renumbered key sid tok frame time before c rest n (
        number_fragments-IsFragmentOf key sid tok frame time (before ++ (c ∷ [])) rest
          (omega arith)),
)

module _ (bs : Bytes) (key : Bool) (sid tok frame time max : ℕ) (nonempty : 0 < length bs)
    (positive : 0 < max) (a : FrameAssembler) (ready : IsReady a.current_frame_id frame)
    (shown : (key || a.has_received_keyframe) ≡ true) where
  -- A frame of a byte at least, cut into pieces of a byte at least, makes an assembler that takes the
  -- frame up, with a keyframe now or before, give out the first 255 pieces as if they were the frame.
  pub feed-fragment_frame_cut :
      (feed a (fragment_frame bs key sid tok frame time max)).1
      ≡ (concat (take 255 (chunks max bs)), key) ∷ []
  unfolding fragment_frame
  feed-fragment_frame_cut =
      let cs = take 255 (chunks max bs) in
      let n : min (length (chunks max bs)) 255 % 256 ≡ length cs =
        omega (arith, length-take 255 (chunks max bs)) in
      rw n (
        feed_frame frame cs key a (number_fragments key sid tok frame (length cs) time 0 cs)
          (omega (arith, length-take 255 (chunks max bs)))
          (omega (arith, length-take 255 (chunks max bs), some_chunk max bs nonempty)) ready shown
          (number_fragments-IsFragmentOf key sid tok frame time [] cs
            (omega (arith, length-take 255 (chunks max bs))))
          (number_fragments-Distinct key sid tok frame time (length cs) 0 cs
            (omega (arith, length-take 255 (chunks max bs))))
          (length-number_fragments key sid tok frame time (length cs) 0 cs))

take_all : {A : Type 0} (n : ℕ) (xs : List A) → length xs ≤ n → take n xs ≡ xs
take_all zero [] h = refl
take_all zero (x ∷ xs) h = absurd (omega arith)
take_all (suc n) [] h = refl
take_all (suc n) (x ∷ xs) h = ap (◌∷◌ x) (take_all n xs (omega arith))

-- A frame of at most 255 times the payload size comes out of the assembler as it went into
-- `fragment_frame`, once and with its keyframe flag, if the assembler takes the frame up and the
-- frame is a keyframe or one was seen before.
pub feed-fragment_frame :
    (bs : Bytes) (key : Bool) (sid tok frame time max : ℕ)
    → 0 < length bs
    → length bs ≤ 255 * max
    → (a : FrameAssembler) → IsReady a.current_frame_id frame
    → (key || a.has_received_keyframe) ≡ true
    → (feed a (fragment_frame bs key sid tok frame time max)).1 ≡ (bs, key) ∷ []
feed-fragment_frame bs key sid tok frame time max h k a r s =
    feed-fragment_frame_cut bs key sid tok frame time max h (omega arith) a r s
    ∙ ap (λ b. (b, key) ∷ [])
        (ap concat (take_all 255 (chunks max bs) (length-chunks max 255 bs k))
          ∙ concat-chunks max bs (omega arith))
