-- ===== src/Protocol/Reader/Phrases.antt =====
-- Runs of fields that several messages share: credentials at the front of a request, and a status
-- at the front of an answer. `k` reads what follows.
use proj_rc.Base.{ℕ, ◌≤◌, ◌<◌, ◌≡◌, refl, true, ◌∷◌, ◌++◌, length, Bytes}
use proj_rc.Shared.Outcome.{Outcome, ok}
use proj_rc.Shared.Decimal.{to_string}
use proj_rc.Shared.Verifications.{verify_password}
use proj_rc.Protocol.Adapter.{Adapter, IsLawful}
use proj_rc.Protocol.Reader.{
  Reader, ◌>>=◌, ◌>>◌, pure, lift, is_stop, read_space, read_delimiter, read_user_id, read_password,
  read_string, read_message_id,
}
use proj_rc.Protocol.Reader.Yields.{
  Yields, Yields-bind, Yields-then, Yields-lift, Yields-pure, read_string-Yields, read_space-Yields,
  read_delimiter-Yields, read_message_id-Yields,
}
use proj_rc.Protocol.Reader.Fields.{IsWord, read_user_id-Yields, read_password-Yields}
use proj_rc.Protocol.Codes.{space}

module _ (a : Adapter) {pending : a.Source → Bytes} (w : IsLawful a pending) {M : Type 0} where
  open a use {Source}

  -- ` <id> <password>`
  pub credentials-Yields :
      (k : ℕ → Bytes → Reader Source M) (user_id : ℕ) (password : Bytes) (d : ℕ) (tail : Bytes)
      (s : Source) {m : M} {rest : Bytes}
      → 100_000 ≤ user_id
      → user_id < 1_000_000
      → verify_password password ≡ true
      → is_stop d ≡ true
      → pending s ≡ space ++ (to_string user_id ++ (space ++ (password ++ (d ∷ tail))))
      → ((t : Source) → pending t ≡ d ∷ tail → Yields a w (k user_id password) t m rest)
      → Yields a w
          (read_space a
            >> (read_user_id a >>= λ u. read_space a >> (read_password a >>= λ p. k u p)))
          s
          m
          rest
  credentials-Yields k user_id password d tail s l u v ds h next =
      Yields-then a w _ _ s (read_space-Yields a w s _ h) λ s₁ h₁.
        Yields-bind a w _ _ s₁ (read_user_id-Yields a w user_id _ s₁ _ l u refl h₁) λ s₂ h₂.
          Yields-then a w _ _ s₂ (read_space-Yields a w s₂ _ h₂) λ s₃ h₃.
            Yields-bind a w _ _ s₃ (read_password-Yields a w password d s₃ tail v ds h₃) next

  -- ` <field>`, a word of at most `n` bytes, converted by `f`.
  pub spaced-Yields :
      {X : Type 0} (n : ℕ) (f : Bytes → Outcome X) (x : X) (word : Bytes) (k : X → Reader Source M)
      (d : ℕ) (tail : Bytes) (s : Source) {m : M} {rest : Bytes}
      → length word ≤ n
      → IsWord word
      → is_stop d ≡ true
      → f word ≡ ok x
      → pending s ≡ space ++ (word ++ (d ∷ tail))
      → ((t : Source) → pending t ≡ d ∷ tail → Yields a w (k x) t m rest)
      → Yields a w (read_space a >> (read_string a n >>= λ str. lift (f str) >>= k)) s m rest
  spaced-Yields n f x word k d tail s l ws ds e h next =
      Yields-then a w _ _ s (read_space-Yields a w s _ h) λ s₁ h₁.
        Yields-bind a w (read_string a n) (λ str. lift (f str) >>= k) s₁
          (read_string-Yields a w n word d s₁ tail l ws ds h₁)
          λ s₂ h₂. Yields-bind a w (lift (f word)) k s₂ (Yields-lift a w (f word) x s₂ _ e h₂) next

  -- `<code> <status>`
  pub status-Yields :
      {S : Type 0} (parse : Bytes → Outcome S) (code text : Bytes) (status : S)
      (k : S → Reader Source M) (d : ℕ) (tail : Bytes) (s : Source) {m : M} {rest : Bytes}
      → length text ≤ 3
      → IsWord text
      → is_stop d ≡ true
      → parse text ≡ ok status
      → pending s ≡ code ++ (space ++ (text ++ (d ∷ tail)))
      → ((t : Source) → pending t ≡ d ∷ tail → Yields a w (k status) t m rest)
      → Yields a w
          (read_message_id a code
            >> (read_space a >> (read_string a 3 >>= λ str. lift (parse str) >>= k)))
          s
          m
          rest
  status-Yields parse code text status k d tail s l ws ds e h next =
      Yields-then a w _ _ s (read_message_id-Yields a w code s _ h)
        λ s₁ h₁. spaced-Yields 3 parse status text k d tail s₁ l ws ds e h₁ next

  -- The end of the line, and nothing behind it.
  pub line_end-Yields :
      (m : M) (s : Source) (rest : Bytes)
      → pending s ≡ 10 ∷ rest
      → Yields a w (read_delimiter a >> pure m) s m rest
  line_end-Yields m s rest h =
      Yields-then a w _ _ s (read_delimiter-Yields a w s rest h) λ t k. Yields-pure a w m t rest k

  -- A space, and what `p` reads behind it.
  pub after_space-Yields :
      {X : Type 0} (p : Reader Source X) (k : X → Reader Source M) (s : Source) {x : X} {m : M}
      {here mid rest : Bytes}
      → pending s ≡ space ++ here
      → ((t : Source) → pending t ≡ here → Yields a w p t x mid)
      → ((t : Source) → pending t ≡ mid → Yields a w (k x) t m rest)
      → Yields a w (read_space a >> (p >>= k)) s m rest
  after_space-Yields p k s h read next =
      Yields-then a w _ _ s (read_space-Yields a w s _ h)
        λ t g. Yields-bind a w p k t (read t g) next

  -- `<code> <text>`, where `k` goes on from the text.
  pub answer-Yields :
      (code text : Bytes) (k : Bytes → Reader Source M) (d : ℕ) (tail : Bytes) (s : Source) {m : M}
      {rest : Bytes}
      → length text ≤ 3
      → IsWord text
      → is_stop d ≡ true
      → pending s ≡ code ++ (space ++ (text ++ (d ∷ tail)))
      → ((t : Source) → pending t ≡ d ∷ tail → Yields a w (k text) t m rest)
      → Yields a w (read_message_id a code >> (read_space a >> (read_string a 3 >>= k))) s m rest
  answer-Yields code text k d tail s l ws ds h next =
      Yields-then a w _ _ s (read_message_id-Yields a w code s _ h) λ s₁ h₁.
        after_space-Yields (read_string a 3) k s₁ h₁
          (λ t g. read_string-Yields a w 3 text d t tail l ws ds g) next
