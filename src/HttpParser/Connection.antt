-- ===== src/HttpParser/Connection.antt =====
-- rust/src/http_parser.rs, `conn_dispatcher`: the loop that reads a connection.
use hcache.Base.{
  ℕ, zero, suc, ◌-◌, ◌≤◌, ◌≡◌, ◌⊎◌, inl, inr, refl, Bool, false, Option, none, some, List, [], ◌∷◌,
  ◌++◌, arith, Text, length, length-append,
}
use hcache.Base.Run.{Run, ok, fault, panicked}
use hcache.HttpParser.{ParserContext, new_context, feed}
use hcache.HttpParser.Progress.{feed_diverges}

-- What `stream.read` returns: the bytes that it put in the buffer, or an error.
pub data Read : Type 0 where
  received : Text → Read
  failed : Read

zeros : ℕ → Text
zeros zero = []
zeros (suc n) = 0 ∷ zeros n

-- The buffer of 4096 bytes, all zero before each read.
unfoldable pub read_buffer : Text → Text
unfolding zeros
read_buffer bytes = bytes ++ zeros (4096 - length bytes)

-- `feed` gets the whole buffer; the `n` that it gets as well it does not use. The loop ends at an
-- error, or waits where no read is left, or ends with the panic of a `feed`. `none` says that a `feed`
-- has not ended. `sends` says which writes to the stream succeed.
unfoldable pub conn_dispatcher :
    (ℕ → Bool) → ℕ → List Read → ParserContext → List Text → Option (Run (List Text))
unfolding read_buffer
conn_dispatcher sends fuel [] ctx written = some (ok written)
conn_dispatcher sends fuel (failed ∷ reads) ctx written = some (ok written)
conn_dispatcher sends fuel (received bytes ∷ reads) ctx written =
    elim (feed sends fuel (read_buffer bytes)
      (record { ctx = ctx; buf_pos = 0; written = written })) [
        | none ↦ none
        | some (fault e) ↦ some (fault e)
        | some (ok l) ↦ conn_dispatcher sends fuel reads l.ctx l.written
      ]

length-zeros : (n : ℕ) → length (zeros n) ≡ n
unfolding zeros
length-zeros zero = refl
length-zeros (suc n) = omega (arith, length-zeros n)

length-read_buffer : (bytes : Text) → length bytes ≤ 4096 → length (read_buffer bytes) ≡ 4096
unfolding read_buffer
length-read_buffer bytes le = omega (
  arith,
  length-append bytes (zeros (4096 - length bytes)),
  length-zeros (4096 - length bytes),
  le,
)

-- After the first read of a connection, of any bytes that fit the buffer, also of none, the loop of
-- `feed` never returns, so that the connection reads nothing more: after any number of rounds it
-- has not ended, or it has ended in the panic of a write to the stream that failed.
pub conn_diverges :
    (sends : ℕ → Bool) (fuel : ℕ) (bytes : Text) (reads : List Read)
    → length bytes ≤ 4096
    → (conn_dispatcher sends fuel (received bytes ∷ reads) new_context [] ≡ none)
      ⊎ ((conn_dispatcher sends fuel (received bytes ∷ reads) new_context []
            ≡ some (fault panicked))
          × ((i : ℕ) × (sends i ≡ false)))
unfolding conn_dispatcher
conn_diverges sends fuel bytes reads le =
    let res =
      feed_diverges sends (read_buffer bytes) fuel []
        (omega (arith, length-read_buffer bytes le)) in
    elim res [
      | inl e ↦ inl (rw (conn_dispatcher, e) refl)
      | inr (e, bad) ↦ inr (rw (conn_dispatcher, e) refl, bad)
    ]
