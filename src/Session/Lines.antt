-- ===== src/Session/Lines.antt =====
-- How the reader, projection.rs, splits a file into lines and a trailing fragment.
use rust_agent_harness.Prelude.{
  ◌+◌, ◌-◌, ◌≤◌, ◌≡◌, ◌≢◌, refl, false, not, none, some, [], ◌∷◌, ◌++◌, ok, ◌>>=◌, arith, length,
  length-append, take, take-length-append, is_empty, ap, ◌==◌, ltb,
}
use rust_agent_harness.Text.{Bytes}
use rust_agent_harness.Text.Utf8.{Lacks}
use rust_agent_harness.Session.Format.{Codec, max_session_bytes}
use rust_agent_harness.Session.Projection.{rposition, split_lines, push_lines, parse_records}

rposition-Lacks : (b : Bytes) → Lacks b'\n' b → rposition b ≡ none
unfolding rposition
rposition-Lacks [] l = refl
rposition-Lacks (b ∷ bs) l = ground (arith, rposition-Lacks bs l.1)

rposition-append : (a b : Bytes) → Lacks b'\n' b → rposition (a ++ b'\n' ∷ b) ≡ some (length a)
unfolding rposition
rposition-append [] b l = rw (rposition-Lacks b l)
rposition-append (x ∷ a) b l = rw (rposition-append a b l) (ap some (omega arith))

pub split_lines-Lacks : (l : Bytes) → Lacks b'\n' l → split_lines l ≡ l ∷ []
unfolding split_lines
split_lines-Lacks [] h = refl
split_lines-Lacks (b ∷ bs) h = ground (arith, split_lines-Lacks bs h.1)

pub split_lines-append :
    (l rest : Bytes) → Lacks b'\n' l → split_lines (l ++ b'\n' ∷ rest) ≡ l ∷ split_lines rest
unfolding split_lines
split_lines-append [] rest h = refl
split_lines-append (b ∷ bs) rest h = ground (arith, split_lines-append bs rest h.1)

end_test :
    (complete fragment : Bytes)
    → (length complete + 1 == length (complete ++ b'\n' ∷ fragment)) ≡ is_empty fragment
end_test complete [] = ground (arith, length-append complete (b'\n' ∷ []))
end_test complete (b ∷ bs) = ground (arith, length-append complete (b'\n' ∷ b ∷ bs))

within_limit :
    (complete fragment : Bytes)
    → length complete + 1 + length fragment ≤ max_session_bytes
    → ltb max_session_bytes (length (complete ++ b'\n' ∷ fragment)) ≡ false
within_limit complete fragment fits = ground (arith, length-append complete (b'\n' ∷ fragment))

take_complete :
    (complete rest : Bytes) → take (length complete + 1 - 1) (complete ++ rest) ≡ complete
take_complete complete rest =
    let e : length complete + 1 - 1 ≡ length complete = omega arith in
    rw e (take-length-append complete rest)

is_empty-ne : (b : Bytes) → b ≢ [] → is_empty b ≡ false
is_empty-ne b ne = ground arith

module _ (c : Codec) where
  -- The bytes behind the last newline are no record, and show as the trailing fragment.
  pub parse_records-append :
      (complete fragment : Bytes)
      → complete ≢ []
      → Lacks b'\n' fragment
      → length complete + 1 + length fragment ≤ max_session_bytes
      → parse_records c (complete ++ b'\n' ∷ fragment) ≡ (
          push_lines c (split_lines complete) [] >>= λ records.
          ok (records, not (is_empty fragment)))
  unfolding parse_records
  parse_records-append complete fragment ne l fits = rw (
    within_limit complete fragment fits,
    rposition-append complete fragment l,
    take_complete complete (b'\n' ∷ fragment),
    is_empty-ne complete ne,
    end_test complete fragment,
  )
