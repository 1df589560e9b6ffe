-- ===== src/Compact/Cursor.antt =====
-- Views of the cursor of compact.hpp: the bytes that a decoder has not read, the room that an
-- encoder has left, and the laws of a codec, by which the messages use it.
use hyperdht_cpp.Prelude.{
  ℕ, zero, suc, ◌+◌, ◌≤◌, ◌<◌, ◌≡◌, refl, ap, sym, ◌∙◌, Bool, true, false, ◌||◌, not, Option, none,
  some, List, [], ◌∷◌, ◌++◌, append_assoc, add64, IsU64, length, length-append, drop, drop-append,
  drop-drop, take-append, if◌then◌else◌, arith,
}
use mathlib.Core.Option
use hyperdht_cpp.Compact.State.{
  State, memory, no_buffer, fail, grow, advance, has_bytes, copy_at, write_bytes, peek, read_bytes,
}

-- `bytes` are exactly what lies between `start` and `end`.
pub record Unread (s : State) (bytes : List ℕ) : Type 0 where
  pub fine : s.error ≡ false
  pub limit : s.end ≡ s.start + length bytes
  pub beyond : List ℕ
  pub content : drop s.start (memory s) ≡ bytes ++ beyond

-- A buffer is there, and holds `n` bytes more from `start` on.
pub record Room (s : State) (n : ℕ) : Type 0 where
  pub fine : s.error ≡ false
  pub room : s.start + n ≤ s.end
  pub target : List ℕ
  pub writable : s.buffer ≡ some target

pub Unread-has :
    (s : State) (bytes : List ℕ) (n : ℕ) → Unread s bytes → n ≤ length bytes → has_bytes s n ≡ true
unfolding has_bytes
Unread-has s bytes n u h = let e : s.end ≡ s.start + length bytes = u.limit in ground arith

-- The test in front of every fixed-size decoder passes.
pub Unread-ready :
    (s : State) (bytes : List ℕ) (n : ℕ)
    → Unread s bytes
    → n ≤ length bytes
    → (s.error || not (has_bytes s n)) ≡ false
Unread-ready s bytes n u h = rw (Unread-has s bytes n u h, u.fine)

-- A decoder that asks for more than is left is refused.
pub Unread-short :
    (s : State) (bytes : List ℕ) (n : ℕ) → Unread s bytes → length bytes < n → has_bytes s n ≡ false
unfolding has_bytes
Unread-short s bytes n u h = let e : s.end ≡ s.start + length bytes = u.limit in ground arith

pub Unread-read : (s : State) (xs ys : List ℕ) → Unread s (xs ++ ys) → read_bytes s (length xs) ≡ xs
unfolding read_bytes
Unread-read s xs ys u =
    rw (u.content, append_assoc xs ys u.beyond) (take-append xs (ys ++ u.beyond))

pub Unread-peek : (s : State) (x : ℕ) (ys : List ℕ) → Unread s (x ∷ ys) → peek s ≡ x
unfolding peek
Unread-peek s x ys u = rw u.content

pub Unread-advance :
    (s : State) (xs ys : List ℕ) → Unread s (xs ++ ys) → Unread (advance s (length xs)) ys
Unread-advance s xs ys u = record {
  fine = u.fine;
  limit =
      let e : s.end ≡ s.start + length (xs ++ ys) = u.limit in omega (arith, length-append xs ys);
  beyond = u.beyond;
  content =
      sym (drop-drop s.start (length xs) (s.start + length xs) (memory s) refl)
      ∙ ap (drop (length xs)) (u.content ∙ append_assoc xs ys u.beyond)
      ∙ drop-append xs (ys ++ u.beyond);
}

pub advance-advance : (s : State) (n m k : ℕ) → n + m ≡ k → advance (advance s n) m ≡ advance s k
advance-advance s n m k e = λ i. record s { start = moved i }
  where
    moved : s.start + n + m ≡ s.start + k
    moved = omega arith

pub advance-zero : (s : State) → advance s 0 ≡ s
advance-zero s = λ i. record s { start = same i }
  where
    same : s.start + 0 ≡ s.start
    same = omega arith

pub grow-zero : (s : State) → IsU64 s.end → grow s 0 ≡ s
grow-zero s h = λ i. record s { end = same i }
  where
    same : add64 s.end 0 ≡ s.end
    same = omega arith

-- Sizes add up, wrap-around included.
pub grow-grow :
    (s : State) (xs ys : List ℕ)
    → grow (grow s (length xs)) (length ys) ≡ grow s (length (xs ++ ys))
grow-grow s xs ys = λ i. record s { end = total i }
  where
    total : add64 (add64 s.end (length xs)) (length ys) ≡ add64 s.end (length (xs ++ ys))
    total = omega (arith, length-append xs ys)

pub Room-has : (s : State) (n m : ℕ) → Room s n → m ≤ n → has_bytes s m ≡ true
unfolding has_bytes
Room-has s n m r h = let e : s.start + n ≤ s.end = r.room in ground arith

pub Room-ready : (s : State) (n : ℕ) → Room s n → (s.error || no_buffer s) ≡ false
Room-ready s n r = rw (r.fine, r.writable)

pub Room-guarded :
    (s : State) (n m : ℕ) → Room s n → m ≤ n → (s.error || not (has_bytes s m)) ≡ false
Room-guarded s n m r h = rw (Room-has s n m r h, r.fine)

pub Room-less : (s : State) (n m : ℕ) → Room s n → m ≤ n → Room s m
Room-less s n m r h = record {
  fine = r.fine;
  room = let e : s.start + n ≤ s.end = r.room in omega arith;
  target = r.target;
  writable = r.writable;
}

pub Room-write :
    (s : State) (n m : ℕ) (bytes : List ℕ)
    → Room s n
    → length bytes + m ≤ n
    → Room (write_bytes s bytes) m
unfolding write_bytes
Room-write s n m bytes r h = record {
  fine = r.fine;
  room = let e : s.start + n ≤ s.end = r.room in omega arith;
  target = copy_at r.target s.start bytes;
  writable = rw r.writable;
}

-- Two writes in a row are one write of both.
copy_at-append :
    (b xs ys : List ℕ) (i j : ℕ)
    → i + length xs ≡ j
    → copy_at (copy_at b i xs) j ys ≡ copy_at b i (xs ++ ys)
unfolding copy_at
copy_at-append [] xs ys i j e = refl
copy_at-append (x ∷ b) [] ys zero j e = let e' : j ≡ 0 = omega arith in rw e'
copy_at-append (x ∷ b) (y ∷ xs) ys zero zero e = absurd (omega arith)
copy_at-append (x ∷ b) (y ∷ xs) ys zero (suc j) e =
    ap (◌∷◌ y) (copy_at-append b xs ys zero j (omega arith))
copy_at-append (x ∷ b) xs ys (suc i) zero e = absurd (omega arith)
copy_at-append (x ∷ b) xs ys (suc i) (suc j) e =
    ap (◌∷◌ x) (copy_at-append b xs ys i j (omega arith))

write_twice :
    (o : Option (List ℕ)) (xs ys : List ℕ) (i j : ℕ)
    → i + length xs ≡ j
    → Option.map (λ b. copy_at b j ys) (Option.map (λ b. copy_at b i xs) o)
      ≡ Option.map (λ b. copy_at b i (xs ++ ys)) o
write_twice none xs ys i j e = refl
write_twice (some b) xs ys i j e = ap some (copy_at-append b xs ys i j e)

pub write_bytes-append :
    (s : State) (xs ys : List ℕ) → write_bytes (write_bytes s xs) ys ≡ write_bytes s (xs ++ ys)
unfolding write_bytes
write_bytes-append s xs ys = λ i. record s {
  start = moved i;
  buffer = write_twice s.buffer xs ys s.start (s.start + length xs) refl i;
}
  where
    moved : s.start + length xs + length ys ≡ s.start + length (xs ++ ys)
    moved = omega (arith, length-append xs ys)

-- A write of as many bytes as the buffer has leaves these bytes.
pub copy_at_whole : (b bytes : List ℕ) → length b ≡ length bytes → copy_at b 0 bytes ≡ bytes
unfolding copy_at
copy_at_whole [] [] e = refl
copy_at_whole [] (x ∷ bytes) e = absurd (omega arith)
copy_at_whole (y ∷ b) [] e = absurd (omega arith)
copy_at_whole (y ∷ b) (x ∷ bytes) e = ap (◌∷◌ x) (copy_at_whole b bytes (omega arith))

-- A decoder moves the cursor forward, not past `end`, and changes nothing but cursor and error.
pub record Within (s t : State) : Type 0 where
  pub same_end : t.end ≡ s.end
  pub same_memory : memory t ≡ memory s
  pub forward : s.start ≤ t.start
  pub inside : s.start ≤ s.end → t.start ≤ t.end

pub Within-refl : (s : State) → Within s s
Within-refl s = record {
  same_end = refl;
  same_memory = refl;
  forward = omega arith;
  inside = λ h. h;
}

pub Within-trans : (s t u : State) → Within s t → Within t u → Within s u
Within-trans s t u p q = record {
  same_end = q.same_end ∙ p.same_end;
  same_memory = q.same_memory ∙ p.same_memory;
  forward = let a = p.forward in let b = q.forward in omega (arith, a, b);
  inside = λ h. q.inside (p.inside h);
}

pub Within-fail : (s : State) → Within s (fail s)
Within-fail s = record {
  same_end = refl;
  same_memory = refl;
  forward = omega arith;
  inside = λ h. h;
}

pub Within-advance : (s : State) (n : ℕ) → has_bytes s n ≡ true → Within s (advance s n)
unfolding has_bytes
Within-advance s n h = record {
  same_end = refl;
  same_memory = refl;
  forward = omega arith;
  inside = λ k. ground arith;
}

choose-Within :
    {A : Type 0} (s : State) (e h : Bool) (read refused : A × State)
    → (h ≡ true → Within s read.1)
    → Within s refused.1
    → Within s (if e || not h then refused else read).1
choose-Within s true h read refused w f = f
choose-Within s false true read refused w f = w refl
choose-Within s false false read refused w f = f

-- The test in front of a decoder that reads `n` bytes first.
pub Within-guarded :
    {A : Type 0} (s : State) (n : ℕ) (read refused : A × State)
    → Within (advance s n) read.1
    → Within s refused.1
    → Within s (if s.error || not (has_bytes s n) then refused else read).1
Within-guarded s n read refused w f =
    choose-Within s s.error (has_bytes s n) read refused
      (λ h. Within-trans s (advance s n) read.1 (Within-advance s n h) w) f

copy_at-nil : (b : List ℕ) (i : ℕ) → copy_at b i [] ≡ b
unfolding copy_at
copy_at-nil [] i = refl
copy_at-nil (x ∷ b) zero = refl
copy_at-nil (x ∷ b) (suc i) = ap (◌∷◌ x) (copy_at-nil b i)

write_nothing : (o : Option (List ℕ)) (i : ℕ) → Option.map (λ b. copy_at b i []) o ≡ o
write_nothing none i = refl
write_nothing (some b) i = ap some (copy_at-nil b i)

pub write_bytes-nil : (s : State) → write_bytes s [] ≡ s
unfolding write_bytes
write_bytes-nil s = λ i. record s { start = same i; buffer = write_nothing s.buffer s.start i }
  where
    same : s.start + 0 ≡ s.start
    same = omega arith
