-- ===== src/Aws.antt =====
-- consoleme/lib/aws.py: whose a resource is, and where it is.
use consoleme.Base.{
  String, Option, none, some, List, [], ◌∷◌, contains, split, last, elem, str_eq, truthy_text,
  if◌then◌else◌,
}
use consoleme.Models.{Arn}

-- What `get_bucket_location` gives: a `ClientError`, an answer with no `LocationConstraint`, or one.
pub data BucketLocation : Type 0 where
  client_error no_constraint : BucketLocation
  constraint : Option String → BucketLocation

-- policy_sentry's reading of arns, and what the caches hold.
pub record Lookups : Type 0 where
  -- `parse_arn`, `get_account_from_arn`
  pub parse_arn : String → Arn
  pub account_from_arn : String → String
  -- the `accountId` of a resource in the AWS Config cache, an empty text where the entry has none
  pub config_cache : String → Option String
  -- the buckets of each account in the S3 cache
  pub s3_cache : List (String × List String)
  pub bucket_location : (bucket account : String) → BucketLocation

-- The loop over the S3 cache.
unfoldable pub account_of_bucket : String → List (String × List String) → String
account_of_bucket name [] = ""
account_of_bucket name ((account, buckets) ∷ rest) =
    if elem name buckets then account else account_of_bucket name rest

cached_account : Lookups → String → Option String → String
unfolding account_of_bucket
cached_account l arn (some account) = account
cached_account l arn none =
    if contains "arn:aws:s3:::" arn
    then account_of_bucket (last (split b':' arn)) l.s3_cache
    else ""

unfoldable pub get_resource_account : Lookups → String → String
unfolding cached_account
get_resource_account l arn =
    if truthy_text (some (l.account_from_arn arn))
    then l.account_from_arn arn
    else cached_account l arn (l.config_cache arn)

-- A location that counts as false means the first region, and two old names are replaced.
region_of : String → String
region_of location =
    if truthy_text (some location)
    then (if str_eq location "EU"
        then "eu-west-1"
        else if str_eq location "US"
        then "us-east-1"
        else location)
    else "us-east-1"

unfoldable pub get_bucket_location_with_fallback : Lookups → String → String → String → String
unfolding region_of
get_bucket_location_with_fallback l bucket account fallback =
    elim (l.bucket_location bucket account) [
      | client_error ↦ fallback
      | no_constraint ↦ region_of fallback
      | constraint none ↦ "us-east-1"
      | constraint (some location) ↦ region_of location
    ]
