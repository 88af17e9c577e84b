-- ===== src/Auth/Schemas.antt =====
-- app/modules/auth/schemas.py
use lms_backend.Base.{ℕ, String}

pub record RegisterRequest : Type 0 where
  pub email : String
  pub password : String
  pub full_name : String

pub record LoginRequest : Type 0 where
  pub email : String
  pub password : String

pub record TokenResponse : Type 0 where
  pub access_token : String
  pub refresh_token : String
  pub token_type : String
  pub expires_in : ℕ
