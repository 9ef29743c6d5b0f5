-- ===== src/Antglob/Pattern/Tokens.antt =====
-- The tokens of a pattern are the whole pattern, so its translation never fails.
use domq.Prelude.{
  if_ind, ℕ, zero, suc, ◌<◌, true, false, List, [], ◌∷◌, ◌++◌, length, length-append, ok, ◌≡◌, refl,
  ap, ◌∙◌, arith, append-nil, append_assoc, ==_iff, Text,
}
use domq.Antglob.Pattern.{
  Token, slash_dirs_slash, dirs_slash, slash_dirs, star, slash, chunk, span_chunk, after_prefix,
  match_token, Match, finditer, Part, token_parts, compile_loop, ant_pattern_to_re,
}

-- The characters that a token stands for.
abbrev pub token_text : Token → Text
token_text slash_dirs_slash = b'/' ∷ b'*' ∷ b'*' ∷ b'/' ∷ []
token_text dirs_slash = b'*' ∷ b'*' ∷ b'/' ∷ []
token_text slash_dirs = b'/' ∷ b'*' ∷ b'*' ∷ []
token_text star = b'*' ∷ []
token_text slash = b'/' ∷ []
token_text (chunk s) = s

after_prefix_lem : (s t : Text) → (after_prefix s t).0 ≡ true → s ++ (after_prefix s t).1 ≡ t
unfolding after_prefix
after_prefix_lem [] t h = refl
after_prefix_lem (a ∷ s) [] h = cc
after_prefix_lem (a ∷ s) (c ∷ t) h = ground (arith, after_prefix_lem s t)

span_chunk_lem : (t : Text) → (span_chunk t).0 ++ (span_chunk t).1 ≡ t
unfolding span_chunk
span_chunk_lem [] = refl
span_chunk_lem (c ∷ t) = ground (arith, span_chunk_lem t)

-- What is shown of the token and the rest of each alternative is shown of the match.
match_token_ind :
    (P : Token × Text → Type 0) (t : Text)
    → ((token : Token)
        → 0 < length (token_text token)
        → (after_prefix (token_text token) t).0 ≡ true
        → P (token, (after_prefix (token_text token) t).1))
    → ((after_prefix (b'*' ∷ []) t).0 ≡ false
        → (after_prefix (b'/' ∷ []) t).0 ≡ false
        → P (chunk (span_chunk t).0, (span_chunk t).1))
    → P (match_token t)
unfolding match_token
match_token_ind P t h k = if_ind P _ _ _ (h slash_dirs_slash (omega arith)) λ _.
    if_ind P _ _ _ (h dirs_slash (omega arith)) λ _.
      if_ind P _ _ _ (h slash_dirs (omega arith))
        λ _. if_ind P _ _ _ (h star (omega arith)) λ n. if_ind P _ _ _ (h slash (omega arith)) (k n)

match_token_lem : (t : Text) → token_text (match_token t).0 ++ (match_token t).1 ≡ t
match_token_lem t =
    match_token_ind (λ m. token_text m.0 ++ m.1 ≡ t) t
      (λ token _ w. after_prefix_lem (token_text token) t w) (λ _ _. span_chunk_lem t)

span_chunk-nonempty :
    (c : ℕ) (t : Text)
    → (after_prefix (b'*' ∷ []) (c ∷ t)).0 ≡ false
    → (after_prefix (b'/' ∷ []) (c ∷ t)).0 ≡ false
    → 0 < length (span_chunk (c ∷ t)).0
unfolding span_chunk after_prefix
span_chunk-nonempty c t h k = ground arith

match_token-nonempty : (c : ℕ) (t : Text) → 0 < length (token_text (match_token (c ∷ t)).0)
match_token-nonempty c t =
    match_token_ind (λ m. 0 < length (token_text m.0)) (c ∷ t) (λ token some_text _. some_text)
      (span_chunk-nonempty c t)

match_token-lt : (c : ℕ) (t : Text) → length (match_token (c ∷ t)).1 < length (c ∷ t)
match_token-lt c t = omega (
  arith,
  match_token-nonempty c t,
  ap length (match_token_lem (c ∷ t)),
  length-append (token_text (match_token (c ∷ t)).0) (match_token (c ∷ t)).1,
)

-- The tokens of a pattern, and the parts that they are translated to.
abbrev pub tokens_of : List Match → List Token
tokens_of [] = []
tokens_of (m ∷ more) = m.token ∷ tokens_of more

abbrev pub texts : List Token → Text
texts [] = []
texts (token ∷ more) = token_text token ++ texts more

abbrev pub parts : List Token → List Part
parts [] = []
parts (token ∷ more) = token_parts token ++ parts more

finditer-texts :
    (fuel pos : ℕ) (t : Text) → length t < fuel → texts (tokens_of (finditer fuel pos t)) ≡ t
unfolding finditer
finditer-texts zero pos t h = absurd (omega arith)
finditer-texts (suc fuel) pos [] h = refl
finditer-texts (suc fuel) pos (c ∷ t) h =
    ap (λ l. token_text (match_token (c ∷ t)).0 ++ l)
      (finditer-texts fuel _ (match_token (c ∷ t)).1 (omega (arith, match_token-lt c t)))
    ∙ match_token_lem (c ∷ t)

compile_loop-finditer :
    (fuel pos : ℕ) (t : Text) (rex : List Part)
    → compile_loop (finditer fuel pos t) pos rex
      ≡ ok (rex ++ parts (tokens_of (finditer fuel pos t)))
unfolding compile_loop finditer
compile_loop-finditer zero pos t rex = rw append-nil
compile_loop-finditer (suc fuel) pos [] rex = rw ((==_iff pos pos).1 refl, append-nil)
compile_loop-finditer (suc fuel) pos (c ∷ t) rex = rw ((==_iff pos pos).1 refl) (
    compile_loop-finditer fuel _ (match_token (c ∷ t)).1
      (rex ++ token_parts (match_token (c ∷ t)).0)
    ∙ ap ok (append_assoc rex (token_parts (match_token (c ∷ t)).0) _))

-- The tokens that `finditer` finds in a pattern.
unfoldable pub tokens : Text → List Token
tokens t = tokens_of (finditer (suc (length t)) 0 t)

-- The tokens of a pattern make up the whole pattern, and `ant_pattern_to_re` returns their
-- translation: no pattern raises ValueError, and no pattern runs out of fuel.
pub ant_pattern_to_re-tokens :
    (ant_pattern : Text)
    → (texts (tokens ant_pattern) ≡ ant_pattern)
      × (ant_pattern_to_re ant_pattern ≡ ok (parts (tokens ant_pattern)))
unfolding ant_pattern_to_re tokens
ant_pattern_to_re-tokens t = (
  finditer-texts (suc (length t)) 0 t (omega arith),
  compile_loop-finditer (suc (length t)) 0 t [],
)
