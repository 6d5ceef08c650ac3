-- ===== src/Dynamo.antt =====
-- lib/dynamo.py: how values are written to DynamoDB and read back (_data_to_dynamo_replace and
-- _data_from_dynamo_replace of BaseDynamoHandler).
pub mod RoundTrip
pub mod Scan
pub mod Storable
mod Tests
use Prim.Native.Nat.{◌/◌, ◌^◌}
use consoleme.Base.{ℕ, zero, suc, ◌*◌, String, Bool, true, false, ◌||◌, str_eq, if◌then◌else◌}

-- A Python `int`.
pub data ℤ : Type 0 where
  pos negsuc : ℕ → ℤ

-- The exponent of a decimal number: that many tens, or that many tenths.
pub data Exponent : Type 0 where
  tens tenths : ℕ → Exponent

-- A finite `Decimal`.
pub record Decimal : Type 0 where
  pub is_negative : Bool
  pub coefficient : ℕ
  pub exponent : Exponent

-- The values that are written and read. A `float` and the timestamp of a `datetime` are given by the number
-- that their text denotes.
mutual
  pub data Value : Type 0 where
    null : Value
    boolean : Bool → Value
    text : String → Value
    int : ℤ → Value
    float datetime decimal : Decimal → Value
    -- `bytes`, and the `Binary` that DynamoDB gives for them
    bytes binary : String → Value
    array : Values → Value
    dict : Entries → Value

  pub data Values : Type 0 where
    nil : Values
    cons : Value → Values → Values

  pub data Entries : Type 0 where
    end : Entries
    entry : String → Value → Entries → Entries

-- "DYNAMO_EMPTY_STRING"
abbrev pub empty_string : String
empty_string = "---DYNAMO-EMPTY-STRING---"

-- The keys that DynamoDB adds for its replication.
unfoldable pub is_replication_key : String → Bool
is_replication_key k =
    str_eq k "aws:rep:deleting"
    || (str_eq k "aws:rep:updateregion" || str_eq k "aws:rep:updatetime")

-- `Decimal(str(n))`
unfoldable pub decimal_of : ℤ → Decimal
decimal_of (pos n) = record { is_negative = false; coefficient = n; exponent = tens 0 }
decimal_of (negsuc n) = record { is_negative = true; coefficient = suc n; exponent = tens 0 }

unfoldable pub signed : Bool → ℕ → ℤ
signed false n = pos n
signed true zero = pos 0
signed true (suc n) = negsuc n

-- `int(d)` cuts off what is behind the point.
magnitude : ℕ → Exponent → ℕ
magnitude n (tens k) = n * 10 ^ k
magnitude n (tenths k) = n / 10 ^ k

unfoldable pub int_of : Decimal → ℤ
unfolding signed magnitude
int_of d = signed d.is_negative (magnitude d.coefficient d.exponent)

unfoldable mutual
  unfolding is_replication_key decimal_of

  pub data_to_dynamo_replace : Value → Value
  data_to_dynamo_replace (text s) = if str_eq s "" then text empty_string else text s
  data_to_dynamo_replace (int n) = decimal (decimal_of n)
  data_to_dynamo_replace (float d) = decimal d
  data_to_dynamo_replace (datetime d) = decimal d
  data_to_dynamo_replace (array vs) = array (values_to_dynamo vs)
  data_to_dynamo_replace (dict es) = dict (entries_to_dynamo es)
  data_to_dynamo_replace v = v

  pub values_to_dynamo : Values → Values
  values_to_dynamo nil = nil
  values_to_dynamo (cons v vs) = cons (data_to_dynamo_replace v) (values_to_dynamo vs)

  pub entries_to_dynamo : Entries → Entries
  entries_to_dynamo end = end
  entries_to_dynamo (entry k v es) =
      let rest = entries_to_dynamo es in
      let w = data_to_dynamo_replace v in if is_replication_key k then rest else entry k w rest

unfoldable mutual
  unfolding is_replication_key int_of

  pub data_from_dynamo_replace : Value → Value
  data_from_dynamo_replace (text s) = if str_eq s empty_string then text "" else text s
  data_from_dynamo_replace (decimal d) = int (int_of d)
  data_from_dynamo_replace (binary b) = bytes b
  data_from_dynamo_replace (array vs) = array (values_from_dynamo vs)
  data_from_dynamo_replace (dict es) = dict (entries_from_dynamo es)
  data_from_dynamo_replace v = v

  pub values_from_dynamo : Values → Values
  values_from_dynamo nil = nil
  values_from_dynamo (cons v vs) = cons (data_from_dynamo_replace v) (values_from_dynamo vs)

  pub entries_from_dynamo : Entries → Entries
  entries_from_dynamo end = end
  entries_from_dynamo (entry k v es) =
      let rest = entries_from_dynamo es in
      let w = data_from_dynamo_replace v in if is_replication_key k then rest else entry k w rest
