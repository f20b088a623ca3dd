-- ===== src/PostureFields.antt =====
-- posture_fields.go: the typed posture fields. Each type is a module with a function for each of its
-- methods.
pub mod Values
pub mod Duration
pub mod BoolField
pub mod StringField
pub mod IntegerField
pub mod FloatField
pub mod VersionField
pub mod TimestampField
pub mod IpField
pub mod JsonField
pub mod StringArrayField
pub mod Times
pub mod Schema
pub mod Typed
pub mod Accepted
pub mod Leaves
pub mod Methods
pub mod Offered
pub mod Reading
pub mod Durations
pub mod Generated
