-- ===== src/Otel.antt =====
-- internal/controller/otel.go: OpenTelemetry variables become agentgateway's telemetry section.
pub mod Env
pub mod Extracted
pub mod Headers
pub mod Spaces
pub mod HeaderList
pub mod Telemetry
pub mod Exported
