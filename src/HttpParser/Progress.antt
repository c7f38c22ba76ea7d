-- ===== src/HttpParser/Progress.antt =====
-- The loop of `ParserContext::feed` (rust/src/http_parser.rs): what a round does to `buf_pos`.
use hcache.Base.{
  [], ◌∷◌, ◌++◌, ◌-◌, leb, codes, ℕ, zero, suc, ◌+◌, ◌<◌, ◌≤◌, ◌≡◌, refl, Bool-cases, ◌⊎◌, inl, inr,
  sym, ap, ◌∙◌, Bool, true, false, Option, none, some, List, arith, Text, length, ◌==◌,
  if◌then◌else◌, get_elem?,
}
use hcache.HttpParser.{
  HttpMethod, HttpRequestParserState, Loop, parse_method, parse_path, add_or_range,
  skip_before_path, skip_header_no_body, parse_body, add_get_body, zadd_get_key_and_body, to_state,
  round, round_at, reply, write_all, go_on, feed, new_context, post, path_state, http_200,
}
use hcache.Base.Run.{Run, ok, fault, panicked}
use mathlib.Core.Option.{get_or}
use mathlib.Core.Path.{subst}

-- The states that the last arm of the loop handles.
abbrev pub IsReply : HttpRequestParserState → Type 0
IsReply parse_method = ⊥
IsReply parse_path = ⊥
IsReply add_or_range = ⊥
IsReply (skip_before_path n) = ⊥
IsReply _ = Unit

-- The last arm panics where a write fails, and else stays at its byte.
abbrev Replied : (ℕ → Bool) → Loop → Run Loop → Type 0
Replied sends l res =
    ((res ≡ fault panicked) × ((i : ℕ) × (sends i ≡ false)))
    ⊎ ((l' : Loop) × (res ≡ ok l') × IsReply l'.ctx.state × (l'.buf_pos ≡ l.buf_pos))

reply-Replied : (sends : ℕ → Bool) (l : Loop) → Replied sends l (reply sends l)
unfolding reply write_all
reply-Replied sends l = elim (Bool-cases (sends (length l.written))) [
  | inr e ↦ inl (rw e refl, (length l.written, e))
  | inl e ↦ elim (Bool-cases (sends (length (l.written ++ http_200 ∷ [])))) [
    | inr f ↦ inl (rw (e, f) refl, (length (l.written ++ http_200 ∷ []), f))
    | inl f ↦ inr (
      record l {
        ctx = record l.ctx { state = skip_header_no_body 0 };
        written = (l.written ++ http_200 ∷ []) ++ codes "ok" ∷ [];
      },
      rw (e, f) refl,
      tt,
      refl,
    )
  ]
]

round-Replied :
    (sends : ℕ → Bool) (size b : ℕ) (st : HttpRequestParserState) (l : Loop)
    → IsReply st
    → round sends size b st l ≡ reply sends l
unfolding round
round-Replied sends size b parse_body l h = refl
round-Replied sends size b parse_method l h = absurd h
round-Replied sends size b parse_path l h = absurd h
round-Replied sends size b add_or_range l h = absurd h
round-Replied sends size b (skip_before_path n) l h = absurd h
round-Replied sends size b _ l h = refl

path_state-cases :
    (m : HttpMethod) (b : ℕ) → (path_state m b ≡ add_or_range) ⊎ IsReply (path_state m b)
unfolding path_state
path_state-cases post b = elim (Bool-cases (b == b'l')) [
  | inl e ↦ rw e (inr tt)
  | inr e ↦ rw e (elim (Bool-cases (b == b'b')) [
    | inl f ↦ rw f (inr tt)
    | inr f ↦
        rw f (elim (Bool-cases (b == b'a')) [ inl g ↦ rw g (inr tt) | inr g ↦ rw g (inl refl) ])
  ])
]
path_state-cases _ b = elim (Bool-cases (b == b'd')) [
  | inl e ↦ rw e (inr tt)
  | inr e ↦ rw e (elim (Bool-cases (b == b'z')) [ inl f ↦ rw f (inr tt) | inr f ↦ rw f (inr tt) ])
]

module _ (sends : ℕ → Bool) (size b : ℕ) (l : Loop) where
  add_or_range-IsReply : IsReply (if b == b'a' then add_get_body 0 else zadd_get_key_and_body 4)
  add_or_range-IsReply = elim (Bool-cases (b == b'a')) [ inl e ↦ rw e tt | inr e ↦ rw e tt ]

  round-add_or_range :
      (l' : Loop) × (round sends size b add_or_range l ≡ ok l')
      × IsReply l'.ctx.state
      × (l'.buf_pos ≡ l.buf_pos + 1)
  unfolding round to_state
  round-add_or_range = (_, refl, add_or_range-IsReply, refl)

  round-parse_path :
      (l' : Loop) × (round sends size b parse_path l ≡ ok l')
      × ((l'.ctx.state ≡ add_or_range) ⊎ IsReply l'.ctx.state)
      × (l'.buf_pos ≡ l.buf_pos + 1)
  unfolding round to_state
  round-parse_path = (_, refl, path_state-cases l.ctx.method b, refl)

  round-skip_before_path :
      (k : ℕ)
      → l.buf_pos + k ≤ size
      → (l' : Loop) × (round sends size b (skip_before_path k) l ≡ ok l')
        × (l'.ctx.state ≡ parse_path)
        × (l'.buf_pos ≡ l.buf_pos + k)
  unfolding round to_state
  round-skip_before_path k h =
      let enough : leb k (size - l.buf_pos) ≡ true = ground arith in
      (
        record l { ctx = record l.ctx { state = parse_path }; buf_pos = l.buf_pos + k },
        rw enough refl,
        refl,
        refl,
      )

  round-parse_method :
      (l' : Loop) × (k : ℕ) × (round sends size b parse_method l ≡ ok l')
      × (l'.ctx.state ≡ skip_before_path k)
      × (k ≤ 5)
      × (l'.buf_pos ≡ l.buf_pos + 1)
  unfolding round
  round-parse_method = (_, if b == b'P' then 5 else 4, refl, refl, ground arith, refl)

-- A loop that has not ended, or has ended in the panic of a write that failed.
abbrev pub IsEndless : (ℕ → Bool) → Option (Run Loop) → Type 0
IsEndless sends res = (res ≡ none) ⊎ ((res ≡ some (fault panicked)) × ((i : ℕ) × (sends i ≡ false)))

module _ (sends : ℕ → Bool) (buf : Text) where
  feed-suc :
      (fuel : ℕ) (l : Loop)
      → l.buf_pos < length buf
      → feed sends (suc fuel) buf l ≡ go_on (round_at sends buf l) (feed sends fuel buf)
  unfolding feed
  feed-suc fuel l h = ground arith

  abbrev byte : Loop → ℕ
  byte l = get_or (get_elem? buf l.buf_pos) 0

  -- the rest of a run after a round
  feed-next :
      (fuel : ℕ) (l l' : Loop) (st : HttpRequestParserState)
      → l.buf_pos < length buf
      → l.ctx.state ≡ st
      → round sends (length buf) (byte l) st l ≡ ok l'
      → IsEndless sends (feed sends fuel buf l')
      → IsEndless sends (feed sends (suc fuel) buf l)
  unfolding round_at go_on
  feed-next fuel l l' st lt e run = subst (IsEndless sends) (
      sym (
        feed-suc fuel l lt
        ∙ ap (λ x. go_on (round sends (length buf) (byte l) x l) (feed sends fuel buf)) e
        ∙ ap (λ x. go_on x (feed sends fuel buf)) run))

  -- In a state of the last arm with bytes left, the loop is endless.
  pub feed-IsReply :
      (fuel : ℕ) (l : Loop)
      → IsReply l.ctx.state
      → l.buf_pos < length buf
      → IsEndless sends (feed sends fuel buf l)
  unfolding round_at go_on
  feed-IsReply zero l h lt = unfold feed in inl refl
  feed-IsReply (suc fuel) l h lt =
      let same = round-Replied sends (length buf) (byte l) l.ctx.state l h in
      elim (reply-Replied sends l) [
        | inl (e, bad) ↦
            inr (feed-suc fuel l lt ∙ ap (λ x. go_on x (feed sends fuel buf)) (same ∙ e), bad)
        | inr (l', e, st, pos) ↦
            feed-next fuel l l' l.ctx.state lt refl (same ∙ e) (feed-IsReply fuel l' st (rw pos lt))
      ]

  -- one lemma for each state before: what the next round comes to
  feed-add_or_range :
      (fuel : ℕ) (l : Loop)
      → l.ctx.state ≡ add_or_range
      → l.buf_pos + 1 < length buf
      → IsEndless sends (feed sends fuel buf l)
  feed-add_or_range zero l e lt = unfold feed in inl refl
  feed-add_or_range (suc fuel) l e lt =
      let (l', run, st, pos) = round-add_or_range sends (length buf) (byte l) l in
      feed-next fuel l l' add_or_range (omega (arith, lt)) e run
        (feed-IsReply fuel l' st (omega (arith, pos, lt)))

  feed-parse_path :
      (fuel : ℕ) (l : Loop)
      → l.ctx.state ≡ parse_path
      → l.buf_pos + 2 < length buf
      → IsEndless sends (feed sends fuel buf l)
  feed-parse_path zero l e lt = unfold feed in inl refl
  feed-parse_path (suc fuel) l e lt =
      let (l', run, next, pos) = round-parse_path sends (length buf) (byte l) l in
      feed-next fuel l l' parse_path (omega (arith, lt)) e run (elim next [
        | inl more ↦ feed-add_or_range fuel l' more (omega (arith, pos, lt))
        | inr reply ↦ feed-IsReply fuel l' reply (omega (arith, pos, lt))
      ])

  feed-skip_before_path :
      (fuel k : ℕ) (l : Loop)
      → l.ctx.state ≡ skip_before_path k
      → l.buf_pos + k + 2 < length buf
      → IsEndless sends (feed sends fuel buf l)
  feed-skip_before_path zero k l e lt = unfold feed in inl refl
  feed-skip_before_path (suc fuel) k l e lt =
      let (l', run, st, pos) =
        round-skip_before_path sends (length buf) (byte l) l k (omega (arith, lt)) in
      feed-next fuel l l' (skip_before_path k) (omega (arith, lt)) e run
        (feed-parse_path fuel l' st (omega (arith, pos, lt)))

  -- On a buffer of more than eight bytes that starts a request, the loop of `feed` has not ended
  -- after any number of rounds, or has ended in the panic of a write that failed, whatever the bytes
  -- are.
  pub feed_diverges :
      (fuel : ℕ) (written : List Text)
      → 8 < length buf
      → IsEndless sends
          (feed sends fuel buf (record { ctx = new_context; buf_pos = 0; written = written }))
  feed_diverges zero written lt = unfold feed in inl refl
  feed_diverges (suc fuel) written lt =
      let l : Loop = record { ctx = new_context; buf_pos = 0; written = written } in
      let (l', k, run, st, small, pos) = round-parse_method sends (length buf) (byte l) l in
      feed-next fuel l l' parse_method (omega (arith, lt)) (unfold new_context in refl) run
        (feed-skip_before_path fuel k l' st (omega (arith, pos, small, lt)))
