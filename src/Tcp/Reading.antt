-- ===== src/Tcp/Reading.antt =====
-- `read_buf` and `read_int32_t` on a stream that TCP cuts anyhow.
use robot_arm.Base.{
  ℕ, zero, suc, ◌+◌, ◌-◌, ◌<◌, ◌≤◌, ◌≡◌, refl, sym, ap, ◌∙◌, ◌≢◌, inl, inr, true, false, List, [],
  ◌∷◌, ◌++◌, ℤ, IsI32, to_i32, to_i32-of_i32, of_i32-lt, arith, ltb, length, Bool-cases,
  length-append, ltb→lt,
}
use mathlib.Core.List.{append_assoc, append-nil}
use robot_arm.Ws.Run.{done, bad_pointer}
use robot_arm.Tcp.{Socket, IsStream, be_bytes, ntohl, send_int, read_buf, read_int32_t}

cons_head : {a b : ℕ} {xs ys : List ℕ} → a ∷ xs ≡ b ∷ ys → a ≡ b
cons_head e = cc

cons_tail : {a b : ℕ} {xs ys : List ℕ} → a ∷ xs ≡ b ∷ ys → xs ≡ ys
cons_tail e = cc

cons_both : {a b : ℕ} {xs ys : List ℕ} → a ≡ b → xs ≡ ys → a ∷ xs ≡ b ∷ ys
cons_both e f = cc

nonempty : (xs rest : List ℕ) → 0 < length xs → xs ++ rest ≢ []
nonempty [] rest h = absurd (omega arith)
nonempty (x ∷ xs) rest h = λ e. cc

nil_of_length : (ys : List ℕ) → length ys ≡ 0 → ys ≡ []
nil_of_length [] h = refl
nil_of_length (y ∷ ys) h = absurd (omega arith)

-- A chunk from the front of a list, which does not reach past `xs`, is a front of `xs`.
split_front :
    (c xs rest tail : List ℕ)
    → xs ++ rest ≡ c ++ tail
    → length c ≤ length xs
    → (ys : List ℕ) × (xs ≡ c ++ ys) × (tail ≡ ys ++ rest)
split_front [] xs rest tail e h = (xs, refl, sym e)
split_front (b ∷ c) [] rest tail e h = absurd (omega arith)
split_front (b ∷ c) (x ∷ xs) rest tail e h =
    let (ys, p, q) = split_front c xs rest tail (cons_tail e) (omega arith) in
    (ys, cons_both (cons_head e) p, q)

pub ntohl-be_bytes : (n : ℤ) → IsI32 n → ntohl (be_bytes n) ≡ n
unfolding ntohl be_bytes
ntohl-be_bytes n h = ap to_i32 (let lt = of_i32-lt n h in omega arith) ∙ to_i32-of_i32 n h

pub four : (n : ℤ) → length (be_bytes n) ≡ 4
unfolding be_bytes
four n = refl

not_beyond : (a b : ℕ) → b ≤ a → ltb a b ≡ false
not_beyond a b h = ground arith

some_more : (n : ℕ) → 0 < n → ltb 0 n ≡ true
some_more n h = ground arith

some_pending : (xs : List ℕ) → 0 < length xs → xs ≢ []
some_pending [] h = absurd (omega arith)
some_pending (x ∷ xs) h = λ e. cc

module _ (so : Socket) (pending : so.State → List ℕ) (stream : IsStream so pending) where
  open so use {State, recv}

  pub read_buf_lem :
      (room fuel left : ℕ) (buf xs rest : List ℕ) (s : State)
      → pending s ≡ xs ++ rest
      → length xs ≡ left
      → 0 < left
      → left ≤ fuel
      → length buf + left ≤ room
      → (s' : State) × (read_buf so room fuel left buf s ≡ done (buf ++ xs, s'))
        × (pending s' ≡ rest)
  unfolding read_buf
  read_buf_lem room zero left buf xs rest s p n some_left h fits = absurd (omega arith)
  read_buf_lem room (suc k) left buf xs rest s p n some_left h fits =
      let (c, s', e, some_got, few, front) =
        stream.recv_some s left some_left (rw p (nonempty xs rest (omega arith))) in
      let (ys, split, behind) = split_front c xs rest (pending s') (sym p ∙ front) (omega arith) in
      let sum : length xs ≡ length c + length ys =
        ap (λ (l : List ℕ). length l) split ∙ length-append c ys in
      let inside : ltb room (length (buf ++ c)) ≡ false =
        not_beyond room (length (buf ++ c)) (omega (arith, length-append buf c, fits, few)) in
      rw (e, inside)
        (elim (Bool-cases (ltb 0 (left - length c))) [
          | inl more ↦
              let (s'', run, end) =
                read_buf_lem room k (left - length c) (buf ++ c) ys rest s' behind (omega arith)
                  (ltb→lt 0 (left - length c) more) (omega arith)
                  (omega (arith, length-append buf c, fits, few)) in
              (
                s'',
                rw more (
                    run
                    ∙ ap (λ (l : List ℕ). done (l, s''))
                        (append_assoc buf c ys ∙ ap (◌++◌ buf) (sym split))),
                end,
              )
          | inr all ↦
              let none_left : ys ≡ [] = nil_of_length ys (ground (arith, all, sum)) in
              (
                s',
                rw all (
                    ap (λ (l : List ℕ). done (buf ++ l, s'))
                      (sym (split ∙ ap (◌++◌ c) none_left ∙ append-nil c))),
                behind ∙ ap (λ (l : List ℕ). l ++ rest) none_left,
              )
        ])

  -- More bytes than there is room for, of which more arrive: the read leaves its buffer.
  pub read_buf-overrun :
      (room fuel left : ℕ) (buf : List ℕ) (s : State)
      → length buf ≤ room
      → room < length buf + left
      → room < length buf + length (pending s)
      → left ≤ fuel
      → read_buf so room fuel left buf s ≡ bad_pointer
  unfolding read_buf
  read_buf-overrun room zero left buf s inside wanted arrives h = absurd (omega arith)
  read_buf-overrun room (suc k) left buf s inside wanted arrives h =
      let (c, s', e, some_got, few, front) =
        stream.recv_some s left (omega arith) (some_pending (pending s) (omega arith)) in
      let both = length-append buf c in
      let all : length (pending s) ≡ length c + length (pending s') =
        ap (λ (l : List ℕ). length l) front ∙ length-append c (pending s') in
      elim (Bool-cases (ltb room (length (buf ++ c)))) [
        | inl out ↦ rw (e, out) refl
        | inr fits ↦
            let within : length (buf ++ c) ≤ room = ground (arith, fits) in
            let more : ltb 0 (left - length c) ≡ true = some_more (left - length c) (omega arith) in
            rw (e, fits, more)
              (read_buf-overrun room k (left - length c) (buf ++ c) s' within (omega arith)
                (omega arith) (omega arith))
      ]

  -- However a TCP stream cuts the bytes, a 32-bit integer that was sent is read back, and the
  -- stream goes on behind it; 4 rounds are enough.
  pub read_int32_t-send_int :
      (fuel : ℕ) (n : ℤ) (rest : List ℕ) (s : State)
      → IsI32 n
      → 4 ≤ fuel
      → pending s ≡ send_int n ++ rest
      → (s' : State) × (read_int32_t so fuel s ≡ done (n, s')) × (pending s' ≡ rest)
  unfolding read_int32_t send_int
  read_int32_t-send_int fuel n rest s h enough p =
      let (s', e, q) =
        read_buf_lem 4 fuel 4 [] (be_bytes n) rest s p (four n) (omega arith) enough
          (omega arith) in
      (s', rw (e, ntohl-be_bytes n h), q)
