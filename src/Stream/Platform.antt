-- ===== src/Stream/Platform.antt =====
-- What the store takes from the JavaScript engine and from Node: the UTF-8 codec of `Buffer`, the
-- SHA-256 of `crypto`, `Date.parse` and `RegExp.test`. They are parameters of the model; a law
-- that a theorem needs of one of them is a hypothesis of that theorem.
use carbon_runtime.Common.{ℕ, ◌<◌, ◌≡◌, Bool, Option, List, Text, All}

pub record Node : Type 0 where
  -- Buffer.from(raw, 'utf8'), and buffer.toString('utf8').
  pub to_utf8 : Text → List ℕ
  pub from_utf8 : List ℕ → Text
  -- crypto.createHash('sha256').update(bytes).digest('hex').
  pub sha256 : List ℕ → Text
  -- Date.parse, in milliseconds since 1970; `none` is NaN.
  pub date_parse : Text → Option ℕ
  -- new RegExp(pattern).test(value), the pattern first.
  pub regex_test : Text → Text → Bool

-- A string that Node encodes into bytes and back without loss: it has no lone surrogate.
pub record IsWellFormed (node : Node) (raw : Text) : Type 0 where
  pub bytes : All (λ b. b < 256) (node.to_utf8 raw)
  pub back : node.from_utf8 (node.to_utf8 raw) ≡ raw
