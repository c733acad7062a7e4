-- ===== src/Server/Page.antt =====
-- What a page relies on of the connection, and the sending of a page part by part: server/src/list.rs
-- and server/src/fs.rs.
use esp32_music_server.Prelude.{◌≡◌, refl, sym, ap, ◌∙◌, [], ◌++◌, append-nil, append_assoc, Bytes}
use esp32_music_server.Run.{Out, Act, Ensures, Ensures-bind, Ensures-weaken, and_then}
use esp32_music_server.Server.Writer.{ChunkWriter}

-- What the connection has been sent, and what the calls on it leave alone.
pub record PageView (S X : Type 0) : Type 0 where
  pub sent : S → Bytes
  pub kept : S → X

-- The connection has been sent a text behind what it was sent before.
pub record SentPart {S X : Type 0} (v : PageView S X) (s₀ : S) (part : Bytes) (s : S) : Type 0 where
  pub sent_is : v.sent s ≡ v.sent s₀ ++ part
  pub kept_is : v.kept s ≡ v.kept s₀

-- A front of the text has been sent.
pub record SentSome {S X : Type 0} (v : PageView S X) (s₀ : S) (body : Bytes) (s : S) : Type 0 where
  pub front : Bytes
  pub rest : Bytes
  pub parts : front ++ rest ≡ body
  pub sent_is : v.sent s ≡ v.sent s₀ ++ front

-- A call that sends nothing.
abbrev pub Quiet : {E S X A : Type 0} → PageView S X → S → Out E S A → Type 0
Quiet v s r = Ensures (λ _. SentPart v s []) (λ _. SentPart v s []) r

-- The whole text is sent, or a write failed behind a front of it.
abbrev pub SendsPage : {I S X : Type 0} → PageView S X → S → Bytes → Out I S (Unit {0}) → Type 0
SendsPage v s₀ body r = Ensures (λ _. SentPart v s₀ body) (λ _. SentSome v s₀ body) r

pub record PageLaws {I S X : Type 0} (writer : ChunkWriter I S) (v : PageView S X) : Type 0 where
  pub write_sends : (chunk : Bytes) (s : S) → SendsPage v s chunk (writer.write_chunk chunk s)
  pub fmt_sends : (text : Bytes) (s : S) → SendsPage v s text (writer.write_fmt text s)
  pub finalize_sends :
      (s : S) → Ensures (λ _. SentPart v s []) (λ _. SentPart v s []) (writer.finalize s)

module _ {S X : Type 0} {v : PageView S X} where
  pub SentPart-refl : (s : S) → SentPart v s [] s
  SentPart-refl s = record { sent_is = sym (append-nil (v.sent s)); kept_is = refl }

  pub SentPart-trans :
      (a b : Bytes) {s₀ s₁ s₂ : S}
      → SentPart v s₀ a s₁
      → SentPart v s₁ b s₂
      → SentPart v s₀ (a ++ b) s₂
  SentPart-trans a b {s₀} h g = record {
    sent_is = g.sent_is ∙ ap (λ t. t ++ b) h.sent_is ∙ append_assoc (v.sent s₀) a b;
    kept_is = g.kept_is ∙ h.kept_is;
  }

  -- Nothing more was sent.
  pub SentPart-quiet :
      (a : Bytes) {s₀ s₁ s₂ : S} → SentPart v s₀ a s₁ → SentPart v s₁ [] s₂ → SentPart v s₀ a s₂
  SentPart-quiet a {s₀} {s₁} h g = record {
    sent_is = g.sent_is ∙ append-nil (v.sent s₁) ∙ h.sent_is;
    kept_is = g.kept_is ∙ h.kept_is;
  }

  pub SentPart-whole :
      {a body : Bytes} {s₀ s : S} → a ≡ body → SentPart v s₀ a s → SentPart v s₀ body s
  SentPart-whole {s₀} e h = record {
    sent_is = h.sent_is ∙ ap (λ t. v.sent s₀ ++ t) e;
    kept_is = h.kept_is;
  }

  -- A part that was sent is a front of every text that begins with it.
  pub SentSome-part :
      (a b body : Bytes) {s₀ s : S} → a ++ b ≡ body → SentPart v s₀ a s → SentSome v s₀ body s
  SentSome-part a b body e h = record { front = a; rest = b; parts = e; sent_is = h.sent_is }

  pub SentSome-quiet :
      (body : Bytes) {s₀ s₁ s₂ : S}
      → SentSome v s₀ body s₁
      → SentPart v s₁ [] s₂
      → SentSome v s₀ body s₂
  SentSome-quiet body {s₁} h g = record {
    front = h.front;
    rest = h.rest;
    parts = h.parts;
    sent_is = g.sent_is ∙ append-nil (v.sent s₁) ∙ h.sent_is;
  }

  -- A front of a middle part, behind the part before it.
  pub SentSome-middle :
      (a b c body : Bytes) {s₀ s₁ s : S}
      → a ++ (b ++ c) ≡ body
      → SentPart v s₀ a s₁
      → SentSome v s₁ b s
      → SentSome v s₀ body s
  SentSome-middle a b c body {s₀} e h g = record {
    front = a ++ g.front;
    rest = g.rest ++ c;
    parts =
        append_assoc a g.front (g.rest ++ c)
        ∙ ap (λ t. a ++ t) (sym (append_assoc g.front g.rest c) ∙ ap (λ t. t ++ c) g.parts)
        ∙ e;
    sent_is = g.sent_is ∙ ap (λ t. t ++ g.front) h.sent_is ∙ append_assoc (v.sent s₀) a g.front;
  }

module _ {I S X : Type 0} {v : PageView S X} (s₀ : S) (body done : Bytes) {s : S} where
  -- The next part of a page, and what is behind it.
  pub page_part :
      {A : Type 0} (part rest : Bytes) {r : Out I S A} (f : A → Act I S (Unit {0}))
      → SentPart v s₀ done s
      → Ensures (λ _. SentPart v s part) (λ _. SentSome v s part) r
      → done ++ (part ++ rest) ≡ body
      → ((a : A) (s' : S) → SentPart v s₀ (done ++ part) s' → SendsPage v s₀ body (f a s'))
      → SendsPage v s₀ body (and_then r f)
  page_part part rest f h call e k =
      Ensures-bind f
        (Ensures-weaken call (λ _ _ g. SentPart-trans done part h g)
          (λ _ _ g. SentSome-middle done part rest body e h g))
        k

  -- The last call of a page sends nothing.
  pub page_end :
      {r : Out I S (Unit {0})}
      → SentPart v s₀ done s
      → Quiet v s r
      → done ≡ body
      → SendsPage v s₀ body r
  page_end h call e =
      Ensures-weaken call (λ _ _ g. SentPart-whole e (SentPart-quiet done h g))
        (λ _ _ g. SentSome-part done [] body (append-nil done ∙ e) (SentPart-quiet done h g))

  -- The last part of a page.
  pub page_last :
      (part : Bytes) {r : Out I S (Unit {0})}
      → SentPart v s₀ done s
      → Ensures (λ _. SentPart v s part) (λ _. SentSome v s part) r
      → done ++ part ≡ body
      → SendsPage v s₀ body r
  page_last part h call e =
      Ensures-weaken call (λ _ _ g. SentPart-whole e (SentPart-trans done part h g))
        (λ _ _ g. SentSome-middle done part [] body (ap (λ t. done ++ t) (append-nil part) ∙ e) h g)
