-- ===== src/Ecs/PhaseB/Laws.antt =====
-- What the poll of a service answers, and why.
use formae_plugin_aws.Text.{Text}
