-- ===== src/Contiki/Mqtt/Message.antt =====
-- `publish` of mqtt-demo.c builds the text of a message and chooses its topic.
use nsdscourse.Base.{
  ℕ, ◌+◌, ◌-◌, ◌%◌, ◌≤◌, ◌<◌, ◌≡◌, Option, none, some, List, [], ◌++◌, arith, length, length-append,
  leb, ◌==◌, if◌then◌else◌,
}
use nsdscourse.Contiki.Mqtt.Text.{
  codes, decimal, count_char, count_char-append, count_char-decimal, length-decimal,
}
use nsdscourse.Contiki.Mqtt.Config.{pub_topic_odd, pub_topic_even}

-- APP_BUFFER_SIZE
abbrev pub app_buffer_size : ℕ
app_buffer_size = 512

pub record Message : Type 0 where
  pub topic : List ℕ
  pub payload : List ℕ

-- A piece that is printed behind `done`, or `none` with the message "Buffer too short".
abbrev pub print_more : List ℕ → List ℕ → Option (List ℕ)
print_more done piece =
    if leb (app_buffer_size - length done) (length piece) then none else some (done ++ piece)

infixl 5 ◌>>=◌
abbrev ◌>>=◌ : {A B : Type 0} → Option A → (A → Option B) → Option B
none >>= f = none
some a >>= f = f a

abbrev pub parity : ℕ → List ℕ
parity ran = if ran % 2 == 0 then codes "even" else codes "odd"

-- "{\"Number\":\"%d\",\"Outcome #\":%s}"
abbrev pub number_part : ℕ → List ℕ
number_part ran =
    codes "{\"Number\":\""
    ++ (decimal 9 ran ++ (codes "\",\"Outcome #\":" ++ (parity ran ++ codes "}")))

-- ",\"Def Route\":\"%s\""
abbrev pub route_part : List ℕ → List ℕ
route_part def_rt_str = codes ",\"Def Route\":\"" ++ (def_rt_str ++ codes "\"")

-- `ran` is what `rand()` returns, and `def_rt_str` the text of the default route.
unfoldable pub publish : ℕ → List ℕ → Option Message
publish ran def_rt_str = do
  first ← print_more [] (number_part ran)
  second ← print_more first (route_part def_rt_str)
  payload ← print_more second (codes "}}")
  some
      (record { topic = if ran % 2 == 0 then pub_topic_even else pub_topic_odd; payload = payload })

abbrev pub whole : ℕ → List ℕ → List ℕ
whole ran def_rt_str = (number_part ran ++ route_part def_rt_str) ++ codes "}}"

length-number_part : (ran : ℕ) → length (number_part ran) ≤ 42
length-number_part ran = ground (
  arith,
  length-append (decimal 9 ran) (codes "\",\"Outcome #\":" ++ (parity ran ++ codes "}")),
  length-decimal 9 ran,
)

-- Every message whose route text fits the 64 characters of its buffer is published: the number of
-- ten digits at most and the route fit the application's buffer. The topic and the word in the
-- message both tell whether the number is even.
pub publish_lem :
    (ran : ℕ) (def_rt_str : List ℕ)
    → length def_rt_str < 64
    → publish ran def_rt_str
      ≡ some (record {
        topic = if ran % 2 == 0 then pub_topic_even else pub_topic_odd;
        payload = whole ran def_rt_str;
      })
unfolding publish
publish_lem ran def_rt_str h = ground (
  arith,
  length-number_part ran,
  length-append def_rt_str (codes "\""),
  length-append (number_part ran) (route_part def_rt_str),
)

module _ (c : ℕ) (brace : 122 < c) where
  -- The braces of the two parts that depend on the values printed.
  count-number_part :
      (ran : ℕ)
      → count_char c (number_part ran) ≡ (if b'{' == c then 1 else 0) + (if b'}' == c then 1 else 0)
  count-number_part ran = ground (
    arith,
    count_char-append c (decimal 9 ran) (codes "\",\"Outcome #\":" ++ (parity ran ++ codes "}")),
    count_char-decimal c 9 ran brace,
  )

  count-whole :
      (ran : ℕ) (def_rt_str : List ℕ)
      → count_char c def_rt_str ≡ 0
      → count_char c (whole ran def_rt_str)
        ≡ (if b'{' == c then 1 else 0) + (if b'}' == c then 3 else 0)
  count-whole ran def_rt_str h = ground (
    arith,
    count-number_part ran,
    count_char-append c def_rt_str (codes "\""),
    count_char-append c (number_part ran) (route_part def_rt_str),
    count_char-append c (number_part ran ++ route_part def_rt_str) (codes "}}"),
  )

-- The message opens one brace and closes three, so that it is no JSON text, whatever the number and
-- the route, if the route's text itself has no brace.
pub publish_unbalanced :
    (ran : ℕ) (def_rt_str : List ℕ) (m : Message)
    → length def_rt_str < 64
    → count_char b'{' def_rt_str ≡ 0
    → count_char b'}' def_rt_str ≡ 0
    → publish ran def_rt_str ≡ some m
    → (count_char b'{' m.payload ≡ 1) × (count_char b'}' m.payload ≡ 3)
publish_unbalanced ran def_rt_str m h lo ro e = ground (
  arith,
  publish_lem ran def_rt_str h,
  count-whole b'{' (omega arith) ran def_rt_str lo,
  count-whole b'}' (omega arith) ran def_rt_str ro,
)
