-- ===== src/CseMessage/Framed.antt =====
-- What `ParseCSEMessage` reads of a message in the form that the extension writes.
use agent_baker.Prelude.{
  ℕ, ◌+◌, ◌-◌, ◌<◌, true, false, [], ◌∷◌, ◌++◌, ◌≡◌, refl, sym, ap, ◌∙◌, arith, ltb, length, take,
  Option, some, append_assoc, length-append,
}
use agent_baker.Text.{Text, text, has_prefix}
use agent_baker.Datamodel.Status.{CseStatus}
use agent_baker.CseMessage.{
  index, drop, start_after, between, with_exit_code, status_in, parse_cse_message,
}

-- In `a ++ sub ++ b` no occurrence of `sub` begins within `a`.
abbrev pub NoEarlier : Text → Text → Text → Type 0
NoEarlier sub b [] = Unit
NoEarlier sub b (c ∷ a) = (has_prefix (c ∷ (a ++ (sub ++ b))) sub ≡ false) × NoEarlier sub b a

has_prefix-append : (sub b : Text) → has_prefix (sub ++ b) sub ≡ true
unfolding has_prefix
has_prefix-append [] b = ground arith
has_prefix-append (c ∷ sub) b = ground (arith, has_prefix-append sub b)

index-first : (c : ℕ) (sub b : Text) → index ((c ∷ sub) ++ b) (c ∷ sub) ≡ some 0
unfolding index
index-first c sub b = rw (has_prefix-append (c ∷ sub) b) refl

index-NoEarlier :
    (a : Text) (c : ℕ) (sub b : Text)
    → NoEarlier (c ∷ sub) b a
    → index (a ++ ((c ∷ sub) ++ b)) (c ∷ sub) ≡ some (length a)
unfolding index
index-NoEarlier [] c sub b h = index-first c sub b
index-NoEarlier (x ∷ a) c sub b (e, h) = rw (e, index-NoEarlier a c sub b h) (ap some (omega arith))

drop-append : (a b : Text) → drop (length a) (a ++ b) ≡ b
unfolding drop
drop-append [] b = refl
drop-append (x ∷ a) b = drop-append a b

take-append : (a b : Text) → take (length a) (a ++ b) ≡ a
take-append [] b = refl
take-append (x ∷ a) b = ap (λ t. x ∷ t) (take-append a b)

abbrev stdout : Text
stdout = text "[stdout]"

abbrev stderr : Text
stderr = text "[stderr]"

-- The message of the extension: its standard output between two marks.
abbrev pub message_of : Text → Text → Text → Text
message_of before body after = before ++ (stdout ++ (body ++ (stderr ++ after)))

module _ (before body after : Text) where
  regroup : message_of before body after ≡ (before ++ (stdout ++ body)) ++ (stderr ++ after)
  regroup =
      rw
        (
          append_assoc before (stdout ++ body) (stderr ++ after),
          append_assoc stdout body (stderr ++ after),
        )
        refl

  length-stdout : length stdout ≡ 8
  unfolding text
  length-stdout = refl

  index-stdout :
      NoEarlier stdout (body ++ (stderr ++ after)) before
      → index (message_of before body after) stdout ≡ some (length before)
  unfolding text
  index-stdout h = index-NoEarlier before b'[' _ (body ++ (stderr ++ after)) h

  index-stderr :
      NoEarlier stderr after (before ++ (stdout ++ body))
      → index (message_of before body after) stderr ≡ some (length before + 8 + length body)
  unfolding text
  index-stderr h = rw regroup (
      index-NoEarlier (before ++ (stdout ++ body)) b'[' _ after h
      ∙ ap some (
          omega (
            arith,
            length-append before (stdout ++ body),
            length-append stdout body,
            length-stdout,
          )))

  drop_start : drop (length before + 8) (message_of before body after) ≡ body ++ (stderr ++ after)
  drop_start =
      let start = sym (length-append before stdout ∙ ap (λ n. length before + n) length-stdout) in
      let whole = sym (append_assoc before stdout (body ++ (stderr ++ after))) in
      rw (start, whole) (drop-append (before ++ stdout) (body ++ (stderr ++ after)))

  between_marks :
      0 < length body
      → between
          (message_of before body after)
          (length before + 8)
          (some (length before + 8 + length body))
        ≡ some body
  unfolding between
  between_marks h =
      let size : length before + 8 + length body - (length before + 8) ≡ length body =
        omega arith in
      let later : ltb (length before + 8) (length before + 8 + length body) ≡ true =
        ground (arith, h) in
      rw (later, size, drop_start, take-append body (stderr ++ after)) refl

  -- If the first mark of each kind is the one that the extension wrote, and there is something
  -- between them, just that is decoded, whatever stands around it.
  pub parse_cse_message-framed :
      (unmarshal : Text → Option CseStatus)
      → NoEarlier stdout (body ++ (stderr ++ after)) before
      → NoEarlier stderr after (before ++ (stdout ++ body))
      → 0 < length body
      → parse_cse_message unmarshal (message_of before body after)
        ≡ with_exit_code (message_of before body after) (unmarshal body)
  unfolding parse_cse_message start_after status_in
  parse_cse_message-framed unmarshal h g some_body =
      rw (index-stdout h, index-stderr g, between_marks some_body) refl
